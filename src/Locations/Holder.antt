-- ===== src/Locations/Holder.antt =====
-- Who holds a location: an unexpired row stands against every other computer.
use pairfob.Prelude.{
  ℕ, ◌<◌, ◌≡◌, String, false, Option, some, List, [], ◌∷◌, arith, lookup, lookup-insert,
  lookup-delete, eq_iff, All, Option-cases, inl, inr,
}
use pairfob.Locations.{
  LocRow, IndexCore, Request, lookup_loc, insert_loc, remove_loc, fetch, fetch_all, owns, daemon_of,
  ref_of, loc_of, row_of,
}

-- The row of a location, whether it has expired or not.
abbrev pub held : String → IndexCore → Option LocRow
held loc core = lookup loc core.rows

module _ (loc : String) (row : LocRow) (core : IndexCore) (holds : held loc core ≡ some row) where
  held-lookup_loc :
      (now : ℕ) (asked : String)
      → now < row.exp
      → held loc (lookup_loc now asked core).core ≡ some row
  unfolding lookup_loc
  held-lookup_loc now asked live =
      ground (arith, lookup-delete asked loc core.rows, eq_iff asked loc)

  held-insert_loc :
      (now : ℕ) (new : LocRow)
      → now < row.exp
      → owns row new.daemon_id new.pair_ref ≡ false
      → held loc (insert_loc now new core).core ≡ some row
  unfolding insert_loc
  held-insert_loc now new live foreign = elim (Option-cases (lookup new.pair_loc core.rows)) [
    | inl e ↦ ground (arith, lookup-insert new.pair_loc loc new core.rows, eq_iff new.pair_loc loc)
    | inr (old, e) ↦ ground (
      arith,
      lookup-insert new.pair_loc loc new core.rows,
      lookup-insert new.pair_loc loc (record old { exp = new.exp }) core.rows,
      eq_iff new.pair_loc loc,
    )
  ]

  held-remove_loc :
      (asked daemon_id pair_ref : String)
      → owns row daemon_id pair_ref ≡ false
      → held loc (remove_loc asked daemon_id pair_ref core) ≡ some row
  unfolding remove_loc
  held-remove_loc asked daemon_id pair_ref foreign =
      ground (arith, lookup-delete asked loc core.rows, eq_iff asked loc)

  held-fetch :
      (q : Request)
      → q.now < row.exp
      → owns row (daemon_of q) (ref_of q) ≡ false
      → held loc (fetch q core).core ≡ some row
  unfolding fetch
  held-fetch q live foreign = ground (
    arith,
    held-lookup_loc q.now (loc_of q) live,
    held-insert_loc q.now (row_of q) live foreign,
    held-remove_loc (loc_of q) (daemon_of q) (ref_of q) foreign,
  )

-- A request of another owner, before the row expires.
abbrev pub IsForeign : LocRow → Request → Type 0
IsForeign row q = (q.now < row.exp) × (owns row (daemon_of q) (ref_of q) ≡ false)

pub holder_keeps :
    (loc : String) (row : LocRow) (qs : List Request) (core : IndexCore)
    → held loc core ≡ some row
    → All (IsForeign row) qs
    → held loc (fetch_all qs core) ≡ some row
unfolding fetch_all
holder_keeps loc row [] core holds h = holds
holder_keeps loc row (q ∷ qs) core holds h =
    holder_keeps loc row qs (fetch q core).core (held-fetch loc row core holds q h.0.0 h.0.1) h.1
