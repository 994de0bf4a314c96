-- ===== src/Limits/Log.antt =====
-- The sliding window against a log of every admitted hit.
use pairfob.Prelude.{
  ℕ, ◌≤◌, ◌≡◌, refl, ap, ◌&&◌, Bool-cases, ◌∙◌, sym, String, Bool, List, [], ◌∷◌, ◌++◌, arith, leb,
  ltb, ◌===◌, if◌then◌else◌, length, keep, lookup, lookup-insert, eq_iff, inl, inr,
}
use mathlib.Core.Path.{ap₂}
use mathlib.Core.List.{append-nil}
use pairfob.Limits.{Buckets, hits_of, allow, is_recent}

-- A hit of the log, the newest last, and what is asked for.
pub record Hit : Type 0 where
  pub key : String
  pub at : ℕ

pub record Ask : Type 0 where
  pub key : String
  pub limit : ℕ
  pub now : ℕ

abbrev pub times_of : String → List Hit → List ℕ
times_of key [] = []
times_of key (h ∷ hs) = if h.key === key then h.at ∷ times_of key hs else times_of key hs

times_of-append :
    (key : String) (xs ys : List Hit) → times_of key (xs ++ ys) ≡ times_of key xs ++ times_of key ys
times_of-append key [] ys = refl
times_of-append key (x ∷ xs) ys = ground (arith, times_of-append key xs ys)

keep-append {ℓ} :
    {A : Type ℓ} (p : A → Bool) (xs ys : List A) → keep p (xs ++ ys) ≡ keep p xs ++ keep p ys
keep-append p [] ys = refl
keep-append p (x ∷ xs) ys = ground (arith, keep-append p xs ys)

-- What is recent later is recent now.
keep-keep :
    (w now later : ℕ) (xs : List ℕ)
    → now ≤ later
    → keep (is_recent w later) (keep (is_recent w now) xs) ≡ keep (is_recent w later) xs
keep-keep w now later [] h = refl
keep-keep w now later (x ∷ xs) h = ground (arith, keep-keep w now later xs h)

-- Every key has one window.
module _ (window_of : String → ℕ) where
  -- The rule itself: fewer hits than the limit were admitted for the key within its window.
  abbrev pub within : List Hit → Ask → Bool
  within log a =
      ltb (length (keep (is_recent (window_of a.key) a.now) (times_of a.key log))) a.limit

  abbrev pub log_answers : List Hit → List Ask → List Bool
  log_answers log [] = []
  log_answers log (a ∷ asks) =
      let rest =
        log_answers (if within log a then log ++ record { key = a.key; at = a.now } ∷ [] else log)
          asks in
      within log a ∷ rest

  abbrev pub answers : Buckets → List Ask → List Bool
  answers buckets [] = []
  answers buckets (a ∷ asks) =
      let v = allow a.key a.limit (window_of a.key) a.now buckets in
      v.allowed ∷ answers v.buckets asks

  -- Each call is no earlier than the one before it.
  abbrev pub InOrder : ℕ → List Ask → Type 0
  InOrder t [] = Unit {0}
  InOrder t (a ∷ asks) = (t ≤ a.now) × InOrder a.now asks

  -- From `t` on, a bucket and the log have the same recent hits.
  abbrev Agree : ℕ → Buckets → List Hit → Type 0
  Agree t buckets log =
      (key : String) (now : ℕ)
      → t ≤ now
      → keep (is_recent (window_of key) now) (hits_of key buckets)
        ≡ keep (is_recent (window_of key) now) (times_of key log)

  hits_of-allow :
      (key asked : String) (limit now : ℕ) (buckets : Buckets)
      → hits_of asked (allow key limit (window_of key) now buckets).buckets ≡ (
          if key === asked
          then (let hits = keep (is_recent (window_of key) now) (hits_of key buckets) in
              if leb limit (length hits) then hits else hits ++ now ∷ [])
          else hits_of asked buckets)
  unfolding allow hits_of
  hits_of-allow key asked limit now buckets =
      let hits = keep (is_recent (window_of key) now) (hits_of key buckets) in
      ground (
        arith,
        lookup-insert key asked hits buckets,
        lookup-insert key asked (hits ++ now ∷ []) buckets,
      )

  allowed-within :
      (t : ℕ) (buckets : Buckets) (log : List Hit) (a : Ask)
      → t ≤ a.now
      → Agree t buckets log
      → (allow a.key a.limit (window_of a.key) a.now buckets).allowed ≡ within log a
  unfolding allow
  allowed-within t buckets log a h agree = ground (arith, agree a.key a.now h)

  abbrev logged : List Hit → Ask → List Hit
  logged log a = if within log a then log ++ record { key = a.key; at = a.now } ∷ [] else log

  times_of-logged :
      (log : List Hit) (a : Ask) (key : String)
      → times_of key (logged log a) ≡ (
          if a.key === key && within log a
          then times_of key log ++ a.now ∷ []
          else times_of key log)
  times_of-logged log a key = elim (Bool-cases (within log a)) [
    | inl yes' ↦ rw yes' (
        ground (
          arith,
          times_of-append key log (record { key = a.key; at = a.now } ∷ []),
          append-nil (times_of key log),
        ))
    | inr no' ↦ rw no' (ground arith)
  ]

  bucket-allow :
      (t : ℕ) (buckets : Buckets) (log : List Hit) (a : Ask) (key : String)
      → t ≤ a.now
      → Agree t buckets log
      → hits_of key (allow a.key a.limit (window_of a.key) a.now buckets).buckets ≡ (
          if a.key === key
          then (let hits = keep (is_recent (window_of a.key) a.now) (times_of a.key log) in
              if within log a then hits ++ a.now ∷ [] else hits)
          else hits_of key buckets)
  bucket-allow t buckets log a key h agree =
      ground (arith, hits_of-allow a.key key a.limit a.now buckets, agree a.key a.now h)

  Agree-own :
      (log : List Hit) (a : Ask) (now : ℕ)
      → a.now ≤ now
      → (let hits = keep (is_recent (window_of a.key) a.now) (times_of a.key log) in
          keep
            (is_recent (window_of a.key) now)
            (if within log a then hits ++ a.now ∷ [] else hits))
        ≡ keep
            (is_recent (window_of a.key) now)
            (if within log a then times_of a.key log ++ a.now ∷ [] else times_of a.key log)
  Agree-own log a now le =
      let w = window_of a.key in
      let times = times_of a.key log in
      elim (Bool-cases (within log a)) [
        | inl yes' ↦ rw yes' (
            keep-append (is_recent w now) (keep (is_recent w a.now) times) (a.now ∷ [])
            ∙ ap (λ hs. hs ++ keep (is_recent w now) (a.now ∷ [])) (keep-keep w a.now now times le)
            ∙ sym (keep-append (is_recent w now) times (a.now ∷ [])))
        | inr no' ↦ rw no' (keep-keep w a.now now times le)
      ]

  Agree-allow :
      (t : ℕ) (buckets : Buckets) (log : List Hit) (a : Ask)
      → t ≤ a.now
      → Agree t buckets log
      → Agree a.now (allow a.key a.limit (window_of a.key) a.now buckets).buckets (logged log a)
  Agree-allow t buckets log a h agree key now le = elim (Bool-cases (a.key === key)) [
    | inl same ↦
        rw (bucket-allow t buckets log a key h agree, times_of-logged log a key, same)
          (rw (← (eq_iff a.key key).0 same) (Agree-own log a now le))
    | inr other ↦
        rw (bucket-allow t buckets log a key h agree, times_of-logged log a key, other)
          (agree key now (omega arith))
  ]

  answers-log :
      (asks : List Ask) (t : ℕ) (buckets : Buckets) (log : List Hit)
      → InOrder t asks
      → Agree t buckets log
      → answers buckets asks ≡ log_answers log asks
  answers-log [] t buckets log h agree = refl
  answers-log (a ∷ asks) t buckets log h agree =
      ap₂ ◌∷◌ (allowed-within t buckets log a h.0 agree) (
        answers-log asks a.now (allow a.key a.limit (window_of a.key) a.now buckets).buckets
          (logged log a) h.1 (Agree-allow t buckets log a h.0 agree))

  Agree-empty : Agree 0 [] []
  unfolding hits_of lookup
  Agree-empty key now h = refl

  -- For calls in the order of their times, from no buckets, `allow` answers as the rule on a log
  -- that forgets nothing: yes exactly where fewer hits than the limit were admitted for the key
  -- within its window.
  pub answers-log_answers :
      (asks : List Ask) → InOrder 0 asks → answers [] asks ≡ log_answers [] asks
  answers-log_answers asks h = answers-log asks 0 [] [] h Agree-empty
