-- ===== src/Room/Enrollment/Secrets.antt =====
-- timingSafeEqual decides equality, and what rekeying and the enrolment's checks rest on it for.
use Prim.Native.Nat.{bit_or, bit_xor, bit_xor-bitwise, bit_or-bitwise, digits, differ, max}
use pairfob.Prelude.{
  ℕ, zero, suc, ◌/◌, ◌%◌, ◌≤◌, ◌<◌, ◌≡◌, ◌↔◌, refl, sym, ◌∙◌, String, Bool, true, false, ◌&&◌, ◌||◌,
  Option, none, some, List, [], ◌∷◌, arith, ◌==◌, ◌===◌, if◌then◌else◌, length, get_or, eq_iff,
  Bool-cases, Option-cases, inl, inr,
}
use pairfob.Store.{MetaRow, load_meta, set_reconnect_hash, delete_meta, put_meta}
use pairfob.Room.{Room, Env}
use pairfob.Room.Enrollment.{
  or_diffs, timing_safe_equal, rekey, verify_enroll, enroll, abort_enroll, kick,
}

xor_digits : (n a b : ℕ) → a ≤ n → digits (λ y. y) differ n a b ≡ 0 → a ≡ b
xor_digits zero a b h e = ground arith
xor_digits (suc n) zero b h e = ground arith
xor_digits (suc n) (suc a) b h e =
    let half : suc a / 2 ≡ b / 2 = xor_digits n (suc a / 2) (b / 2) (omega arith) (ground arith) in
    ground arith

differ_same : (x : ℕ) → differ x x ≡ 0
differ_same zero = refl
differ_same (suc x) = differ_same x

xor_same : (n a : ℕ) → a ≤ n → digits (λ y. y) differ n a a ≡ 0
xor_same zero zero h = refl
xor_same zero (suc a) h = absurd (omega arith)
xor_same (suc n) zero h = refl
xor_same (suc n) (suc a) h =
    ground (arith, xor_same n (suc a / 2) (omega arith), differ_same (suc a % 2))

or_digits : (n a b : ℕ) → a ≤ n → digits (λ y. y) max n a b ≡ 0 → (a ≡ 0) × (b ≡ 0)
or_digits zero a b h e = ground arith
or_digits (suc n) zero b h e = ground arith
or_digits (suc n) (suc a) b h e =
    let (half, rest) = or_digits n (suc a / 2) (b / 2) (omega arith) (ground arith) in ground arith

bit_xor_zero : (a b : ℕ) → bit_xor a b ≡ 0 → a ≡ b
bit_xor_zero a b e = xor_digits a a b (omega arith) (sym (bit_xor-bitwise a b) ∙ e)

bit_xor_same : (a : ℕ) → bit_xor a a ≡ 0
bit_xor_same a = bit_xor-bitwise a a ∙ xor_same a a (omega arith)

bit_or_zero : (a b : ℕ) → bit_or a b ≡ 0 → (a ≡ 0) × (b ≡ 0)
bit_or_zero a b e = or_digits a a b (omega arith) (sym (bit_or-bitwise a b) ∙ e)

-- No difference is left exactly when every pair of bytes agrees, and the lengths did.
or_diffs_zero :
    (a b : List ℕ) (diff n : ℕ)
    → or_diffs a b diff n ≡ 0
    → (diff ≡ 0) × ((i : ℕ) → i < n → get_or a i 0 ≡ get_or b i 0)
or_diffs_zero a b diff zero e = (e, λ i h. absurd (omega arith))
or_diffs_zero a b diff (suc n) e =
    let (front, last) =
      bit_or_zero (or_diffs a b diff n) (bit_xor (get_or a n 0) (get_or b n 0)) e in
    let (d, rest) = or_diffs_zero a b diff n front in
    let same : get_or a n 0 ≡ get_or b n 0 = bit_xor_zero (get_or a n 0) (get_or b n 0) last in
    (
      d,
      λ i h. elim (Bool-cases (i == n)) [
        | inl hit ↦ let at : i ≡ n = ground arith in rw at same
        | inr miss ↦ rest i (ground arith)
      ],
    )

or_diffs_same : (a : List ℕ) (n : ℕ) → or_diffs a a 0 n ≡ 0
or_diffs_same a zero = refl
or_diffs_same a (suc n) = rw (or_diffs_same a n, bit_xor_same (get_or a n 0)) refl

same_bytes :
    (a b : List ℕ)
    → length a ≡ length b
    → ((i : ℕ) → i < length a → get_or a i 0 ≡ get_or b i 0)
    → a ≡ b
same_bytes [] [] e h = refl
same_bytes [] (y ∷ ys) e h = absurd (omega arith)
same_bytes (x ∷ xs) [] e h = absurd (omega arith)
same_bytes (x ∷ xs) (y ∷ ys) e h =
    let head : x ≡ y = h 0 (omega arith) in
    let tail : xs ≡ ys = same_bytes xs ys (omega arith) (λ i k. h (suc i) (omega arith)) in
    rw (head, tail) refl

-- The comparison that looks at every byte accepts exactly equal texts, for an encoder that gives
-- different texts different bytes.
pub timing_safe_equal_iff :
    (utf8 : String → List ℕ) (a b : String)
    → ((s t : String) → utf8 s ≡ utf8 t → s ≡ t)
    → (timing_safe_equal utf8 a b ≡ true) ↔ (a ≡ b)
unfolding timing_safe_equal
timing_safe_equal_iff utf8 a b injective = (to, from)
  where
    to : timing_safe_equal utf8 a b ≡ true → a ≡ b
    to h =
        let ba = utf8 a in
        let bb = utf8 b in
        let none_left : or_diffs ba bb (bit_xor (length ba) (length bb))
              (max (length ba) (length bb))
            ≡ 0 =
          ground arith in
        let (lens, bytes) =
          or_diffs_zero ba bb (bit_xor (length ba) (length bb)) (max (length ba) (length bb))
            none_left in
        let len : length ba ≡ length bb = bit_xor_zero (length ba) (length bb) lens in
        injective a b (same_bytes ba bb len (λ i k. bytes i (omega arith)))

    from : a ≡ b → timing_safe_equal utf8 a b ≡ true
    from e = rw (← e) (
        rw
          (
            bit_xor_same (length (utf8 a)),
            or_diffs_same (utf8 a) (max (length (utf8 a)) (length (utf8 a))),
          )
          refl)

-- Whether the row of a room has a secret.
abbrev pub holds : Option MetaRow → String → Bool
holds none hash = false
holds (some m) hash = m.reconnect_hash === hash

-- A room with a live secret takes a new one from a caller that names the old one, and takes the
-- secret that it has again: the answer is `ok` exactly for those, for an encoder that gives different
-- texts different bytes, and the stored secret is the new one exactly when it is.
pub rekey_outcome :
    (env : Env) (old_hash new_hash : String) (r : Room)
    → ((s t : String) → env.utf8 s ≡ env.utf8 t → s ≡ t)
    → (holds r.store.meta "" ≡ false)
    → ((rekey env old_hash new_hash r).ok
        ≡ (holds r.store.meta new_hash || holds r.store.meta old_hash))
      × (holds (rekey env old_hash new_hash r).room.store.meta new_hash
          ≡ (rekey env old_hash new_hash r).ok)
unfolding rekey load_meta set_reconnect_hash
rekey_outcome env old_hash new_hash r injective live = elim (Option-cases r.store.meta) [
  | inl bare ↦ rw bare (refl, refl)
  | inr (m, full) ↦
      let new = timing_safe_equal_iff env.utf8 m.reconnect_hash new_hash injective in
      let old = timing_safe_equal_iff env.utf8 m.reconnect_hash old_hash injective in
      rw full (
        ground (
          arith,
          new,
          old,
          eq_iff m.reconnect_hash new_hash,
          eq_iff m.reconnect_hash old_hash,
          eq_iff m.reconnect_hash "",
        ),
        ground (
          arith,
          new,
          old,
          eq_iff m.reconnect_hash new_hash,
          eq_iff m.reconnect_hash old_hash,
          eq_iff m.reconnect_hash "",
          eq_iff new_hash new_hash,
        ),
      )
]

-- Aborting an enrolment answers as verifying it does; only then the row goes, the room has no
-- computer and is not enrolled.
pub abort_enroll_outcome :
    (env : Env) (hash grant_id : String) (r : Room)
    → ((abort_enroll env hash grant_id r).ok ≡ verify_enroll env hash grant_id r)
      × ((abort_enroll env hash grant_id r).room.store.meta
          ≡ (if verify_enroll env hash grant_id r then none else r.store.meta))
      × ((abort_enroll env hash grant_id r).room.daemon
          ≡ (if verify_enroll env hash grant_id r then none else r.daemon))
      × ((abort_enroll env hash grant_id r).room.enrolled
          ≡ (if verify_enroll env hash grant_id r then false else r.enrolled))
unfolding abort_enroll verify_enroll kick delete_meta load_meta
abort_enroll_outcome env hash grant_id r = elim (Option-cases r.store.meta) [
  | inl bare ↦ rw bare (refl, refl, refl, refl)
  | inr (m, full) ↦
      elim (Bool-cases
        (m.grant_id === grant_id && timing_safe_equal env.utf8 m.reconnect_hash hash)) [
          | inl held ↦ rw (full, held) (refl, refl, refl, refl)
          | inr other ↦ rw (full, other) (refl, refl, refl, refl)
        ]
]

-- What an enrolment accepted, the check of the enrolment accepts, and what it refused that refuses.
pub verify-enroll :
    (env : Env) (hash grant_id : String) (r : Room)
    → ((s t : String) → env.utf8 s ≡ env.utf8 t → s ≡ t)
    → verify_enroll env hash grant_id (enroll hash grant_id r).room ≡ (enroll hash grant_id r).ok
unfolding verify_enroll enroll load_meta put_meta
verify-enroll env hash grant_id r injective = elim (Option-cases r.store.meta) [
  | inl bare ↦
      rw bare (
        ground
          (arith, timing_safe_equal_iff env.utf8 hash hash injective, eq_iff grant_id grant_id))
  | inr (m, full) ↦ rw full (
      ground (
        arith,
        timing_safe_equal_iff env.utf8 m.reconnect_hash hash injective,
        eq_iff m.reconnect_hash hash,
        full,
      ))
]
