-- ===== src/Locations/Table.antt =====
-- The table behind the map: a restart, which reads it back, changes nothing.
use mathlib.Core.List.{append_assoc, append-nil}
use pairfob.Prelude.{
  ℕ, ◌≡◌, refl, ◌∙◌, ap, sym, String, false, some, List, [], ◌∷◌, ◌++◌, arith, leb, ◌===◌, Entries,
  lookup, insert, delete, if_rule, option_rule, IsNew, Distinct, Distinct-insert, Distinct-delete,
  insert_new, AllEntries, AllEntries-insert, AllEntries-delete, AllEntries-lookup, ne_sym,
}
use pairfob.Locations.{
  LocRow, IndexCore, Answer, Looked, Inserted, Request, new_index, set_all, lookup_loc, insert_loc,
  remove_loc, fetch, fetch_all, owns, loc_of, row_of, daemon_of, ref_of, persist_put,
  persist_delete, posts,
}

abbrev Keyed : String → LocRow → Type 0
Keyed key row = row.pair_loc ≡ key

-- The table has the rows of the map in their order, each under its own location, none twice.
pub record IsMirror (core : IndexCore) : Type 0 where
  pub saved_rows : core.saved ≡ some core.rows
  pub keyed : AllEntries Keyed core.rows
  pub distinct : Distinct core.rows

IsMirror-put :
    (key : String) (row : LocRow) (core : IndexCore)
    → row.pair_loc ≡ key
    → IsMirror core
    → IsMirror (record { rows = insert key row core.rows; saved = persist_put row core.saved })
IsMirror-put key row core e m = record {
  saved_rows = rw (m.saved_rows, e) refl;
  keyed = AllEntries-insert Keyed key row core.rows e m.keyed;
  distinct = Distinct-insert key row core.rows m.distinct;
}

IsMirror-drop :
    (loc : String) (core : IndexCore)
    → IsMirror core
    → IsMirror (record { rows = delete loc core.rows; saved = persist_delete loc core.saved })
IsMirror-drop loc core m = record {
  saved_rows = rw m.saved_rows refl;
  keyed = AllEntries-delete Keyed loc core.rows m.keyed;
  distinct = Distinct-delete loc core.rows m.distinct;
}

IsMirror-lookup_loc :
    (now : ℕ) (loc : String) (core : IndexCore)
    → IsMirror core
    → IsMirror (lookup_loc now loc core).core
unfolding lookup_loc
IsMirror-lookup_loc now loc core m =
    let Good = λ (l : Looked). IsMirror l.core in
    option_rule Good (lookup loc core.rows) _ _ (λ _. m)
      (λ row _. if_rule Good (leb row.exp now) _ _ (λ _. IsMirror-drop loc core m) (λ _. m))

IsMirror-insert_loc :
    (now : ℕ) (row : LocRow) (core : IndexCore)
    → IsMirror core
    → IsMirror (insert_loc now row core).core
unfolding insert_loc
IsMirror-insert_loc now row core m =
    let Good = λ (i : Inserted). IsMirror i.core in
    let put = IsMirror-put row.pair_loc row core refl m in
    option_rule Good (lookup row.pair_loc core.rows) _ _ (λ _. put)
      (λ old e.
        if_rule Good (leb old.exp now) _ _ (λ _. put)
          (λ _.
            if_rule Good (owns old row.daemon_id row.pair_ref) _ _
              (λ _.
                IsMirror-put row.pair_loc (record old { exp = row.exp }) core
                  (AllEntries-lookup Keyed row.pair_loc core.rows old m.keyed e) m)
              (λ _. m)))

IsMirror-remove_loc :
    (loc daemon_id pair_ref : String) (core : IndexCore)
    → IsMirror core
    → IsMirror (remove_loc loc daemon_id pair_ref core)
unfolding remove_loc
IsMirror-remove_loc loc daemon_id pair_ref core m =
    option_rule IsMirror (lookup loc core.rows) _ _ (λ _. m)
      (λ old _.
        if_rule IsMirror (owns old daemon_id pair_ref) _ _ (λ _. IsMirror-drop loc core m) (λ _. m))

IsMirror-fetch : (q : Request) (core : IndexCore) → IsMirror core → IsMirror (fetch q core).core
unfolding fetch
IsMirror-fetch q core m =
    let Good = λ (a : Answer). IsMirror a.core in
    if_rule Good (posts q "/lookup") _ _ (λ _. IsMirror-lookup_loc q.now (loc_of q) core m)
      (λ _.
        if_rule Good (posts q "/insert") _ _ (λ _. IsMirror-insert_loc q.now (row_of q) core m)
          (λ _.
            if_rule Good (posts q "/delete") _ _
              (λ _. IsMirror-remove_loc (loc_of q) (daemon_of q) (ref_of q) core m) (λ _. m)))

pub IsMirror-fetch_all :
    (qs : List Request) (core : IndexCore) → IsMirror core → IsMirror (fetch_all qs core)
unfolding fetch_all
IsMirror-fetch_all [] core m = m
IsMirror-fetch_all (q ∷ qs) core m =
    IsMirror-fetch_all qs (fetch q core).core (IsMirror-fetch q core m)

-- None of the loaded keys is in the map yet.
abbrev AllNew : Entries LocRow → Entries LocRow → Type 0
AllNew [] rows = Unit {0}
AllNew ((key, row) ∷ loaded) rows = IsNew key rows × AllNew loaded rows

IsNew-append_one :
    (asked key : String) (row : LocRow) (rows : Entries LocRow)
    → (key === asked) ≡ false
    → IsNew asked rows
    → IsNew asked (rows ++ (key, row) ∷ [])
IsNew-append_one asked key row [] h new = (h, tt)
IsNew-append_one asked key row ((held, old) ∷ rest) h new =
    (new.0, IsNew-append_one asked key row rest h new.1)

AllNew-append_one :
    (key : String) (row : LocRow) (loaded rows : Entries LocRow)
    → IsNew key loaded
    → AllNew loaded rows
    → AllNew loaded (rows ++ (key, row) ∷ [])
AllNew-append_one key row [] rows new h = tt
AllNew-append_one key row ((held, old) ∷ rest) rows new h = (
  IsNew-append_one held key row rows (ne_sym held key new.0) h.0,
  AllNew-append_one key row rest rows new.1 h.1,
)

set_all_new :
    (loaded rows : Entries LocRow)
    → Distinct loaded
    → AllNew loaded rows
    → set_all loaded rows ≡ rows ++ loaded
set_all_new [] rows d h = sym (append-nil rows)
set_all_new ((key, row) ∷ rest) rows d h =
    ap (set_all rest) (insert_new key row rows h.0)
    ∙ set_all_new rest (rows ++ (key, row) ∷ []) d.1 (AllNew-append_one key row rest rows d.0 h.1)
    ∙ append_assoc rows ((key, row) ∷ []) rest

AllNew-nil : (loaded : Entries LocRow) → AllNew loaded []
AllNew-nil [] = tt
AllNew-nil ((key, row) ∷ rest) = (tt, AllNew-nil rest)

restart-IsMirror : (core : IndexCore) → IsMirror core → new_index core.saved ≡ core
unfolding new_index
restart-IsMirror core m =
    rw m.saved_rows
      (ground (arith, set_all_new core.rows [] m.distinct (AllNew-nil core.rows), m.saved_rows))

-- After any requests to a new index, what a restart reads back from the table is the index as it is.
pub restart_keeps :
    (qs : List Request)
    → new_index (fetch_all qs (new_index (some []))).saved ≡ fetch_all qs (new_index (some []))
unfolding new_index
restart_keeps qs = restart-IsMirror (fetch_all qs (new_index (some []))) (
    IsMirror-fetch_all qs (new_index (some []))
      (record { saved_rows = refl; keyed = tt; distinct = tt }))
