-- ===== src/Crockford/Alphabet.antt =====
-- The pairing locations that the worker mints and accepts.
use Prim.Native.Char.{Char, code}
use pairfob.Prelude.{
  ℕ, zero, suc, ◌+◌, ◌%◌, ◌≡◌, refl, ap, true, false, not, ◌&&◌, some, List, [], ◌∷◌, arith, ◌==◌,
  length, get_or, map, keep, all, All, Bool-cases, inl, inr,
}
use pairfob.Crockford.{
  crockford, includes, upper, alias, is_blank, normalize_loc, crockford_chars, crockford_char,
  loc_text, mint_loc, codes,
}

-- A code of the alphabet is left alone by every step of the normalization.
abbrev IsPlain : ℕ → Type 0
IsPlain c = (includes crockford c ≡ true) × (alias (upper c) ≡ c) × (is_blank c ≡ false)

crockford-IsPlain : All IsPlain crockford
crockford-IsPlain = search tt

includes-IsPlain : (xs : List ℕ) (c : ℕ) → All IsPlain xs → includes xs c ≡ true → IsPlain c
includes-IsPlain [] c h e = absurd (ground arith)
includes-IsPlain (x ∷ xs) c h e = elim (Bool-cases (x == c)) [
  | inl hit ↦ let same : x ≡ c = ground arith in rw (← same) h.0
  | inr miss ↦ includes-IsPlain xs c h.1 (ground arith)
]

abbrev AreChars : List Char → Type 0
AreChars cs = All (λ c. IsPlain (code c)) cs

crockford_chars-AreChars : AreChars crockford_chars
crockford_chars-AreChars = search tt

get_or-IsPlain : (cs : List Char) (i : ℕ) → AreChars cs → IsPlain (code (get_or cs i "0"))
get_or-IsPlain [] i h = (refl, refl, refl)
get_or-IsPlain (c ∷ cs) zero h = h.0
get_or-IsPlain (c ∷ cs) (suc i) h = get_or-IsPlain cs i h.1

loc_text-IsPlain :
    (b : List ℕ) (i n : ℕ)
    → All IsPlain (codes (loc_text b i n)) × (length (codes (loc_text b i n)) ≡ n)
unfolding loc_text crockford_char
loc_text-IsPlain b i zero = (tt, refl)
loc_text-IsPlain b i (suc n) =
    let (rest, len) = loc_text-IsPlain b (i + 1) n in
    (
      (get_or-IsPlain crockford_chars (get_or b i 0 % 32) crockford_chars-AreChars, rest),
      ap suc len,
    )

abbrev cleaned : List ℕ → List ℕ
cleaned raw = keep (λ c. not (is_blank c)) (map (λ c. alias (upper c)) raw)

cleaned-plain : (t : List ℕ) → All IsPlain t → (cleaned t ≡ t) × (all (includes crockford) t ≡ true)
cleaned-plain [] h = (refl, refl)
cleaned-plain (c ∷ t) h =
    let (same, inside) = cleaned-plain t h.1 in
    let (member, kept, solid) = h.0 in
    (rw (kept, solid) (ap (◌∷◌ c) same), rw (member, inside) refl)

normalize_plain : (t : List ℕ) → All IsPlain t → length t ≡ 6 → normalize_loc t ≡ some t
unfolding normalize_loc
normalize_plain t h len = let (same, inside) = cleaned-plain t h in rw (same, len, inside) refl

-- Every location that is minted is read back as itself, whatever the entropy.
pub normalize_loc-mint_loc :
    (b : List ℕ) → normalize_loc (codes (mint_loc b)) ≡ some (codes (mint_loc b))
unfolding mint_loc
normalize_loc-mint_loc b =
    let (plain, len) = loc_text-IsPlain b 0 6 in normalize_plain (codes (loc_text b 0 6)) plain len

all-IsPlain : (t : List ℕ) → all (includes crockford) t ≡ true → All IsPlain t
all-IsPlain [] h = tt
all-IsPlain (c ∷ t) h =
    (includes-IsPlain crockford c crockford-IsPlain (ground arith), all-IsPlain t (ground arith))

normalize_parts :
    (raw t : List ℕ)
    → normalize_loc raw ≡ some t
    → (all (includes crockford) t ≡ true) × (length t ≡ 6)
unfolding normalize_loc
normalize_parts raw t h =
    let u = cleaned raw in
    elim (Bool-cases (length u == 6 && all (includes crockford) u)) [
      | inl fits ↦ let same : u ≡ t = ground arith in rw (← same) (ground arith, ground arith)
      | inr not_fits ↦ absurd (ground arith)
    ]

-- A location that a person typed is normalized once and for all: the result is its own normal form,
-- so the shard and the index name of a location do not depend on how it was typed.
pub normalize_loc_idem : (raw t : List ℕ) → normalize_loc raw ≡ some t → normalize_loc t ≡ some t
normalize_loc_idem raw t h =
    let (inside, len) = normalize_parts raw t h in normalize_plain t (all-IsPlain t inside) len
