-- ===== src/Crockford.antt =====
-- workers/pairfob-origin/src/crockford.ts: the pairing location and the shard that indexes it.
pub mod Alphabet
use Prim.Native.Char.{Char, code}
use Prim.Native.String
use pairfob.Prelude.{
  ℕ, suc, ◌+◌, ◌-◌, ◌%◌, String, Bool, true, false, not, ◌&&◌, ◌||◌, Option, none, some, List, [],
  ◌∷◌, ◌++◌, ◌==◌, leb, if◌then◌else◌, length, get_or, take, map, keep, all,
}

-- The codes of CROCKFORD.
abbrev pub crockford : List ℕ
crockford =
    b'0' ∷ b'1' ∷ b'2' ∷ b'3' ∷ b'4' ∷ b'5' ∷ b'6' ∷ b'7' ∷ b'8' ∷ b'9' ∷ b'A' ∷ b'B' ∷ b'C' ∷ b'D'
    ∷ b'E' ∷ b'F' ∷ b'G' ∷ b'H' ∷ b'J' ∷ b'K' ∷ b'M' ∷ b'N' ∷ b'P' ∷ b'Q' ∷ b'R' ∷ b'S' ∷ b'T'
    ∷ b'V' ∷ b'W' ∷ b'X' ∷ b'Y' ∷ b'Z' ∷ []

-- CROCKFORD.includes(c)
abbrev pub includes : List ℕ → ℕ → Bool
includes [] c = false
includes (x ∷ xs) c = x == c || includes xs c

-- toUpperCase of an ASCII letter; the source is read on ASCII texts
abbrev pub upper : ℕ → ℕ
upper c = if leb b'a' c && leb c b'z' then c - 32 else c

-- the replacements of I and L by 1, of O by 0 and of U by V
abbrev pub alias : ℕ → ℕ
alias c =
    if c == b'I' || c == b'L'
    then b'1'
    else if c == b'O'
    then b'0'
    else if c == b'U'
    then b'V'
    else c

abbrev pub is_blank : ℕ → Bool
is_blank c = (leb 9 c && leb c 13) || c == 32

-- `trim` is subsumed by the removal of all white space.
unfoldable pub normalize_loc : List ℕ → Option (List ℕ)
normalize_loc raw =
    let t = keep (λ c. not (is_blank c)) (map (λ c. alias (upper c)) raw) in
    if length t == 6 && all (includes crockford) t then some t else none

unfoldable pub loc_shard : List ℕ → List ℕ
loc_shard loc = take 2 loc

-- CROCKFORD, as the characters of a text
abbrev crockford_chars : List Char
crockford_chars =
    "0" ∷ "1" ∷ "2" ∷ "3" ∷ "4" ∷ "5" ∷ "6" ∷ "7" ∷ "8" ∷ "9" ∷ "A" ∷ "B" ∷ "C" ∷ "D" ∷ "E" ∷ "F"
    ∷ "G" ∷ "H" ∷ "J" ∷ "K" ∷ "M" ∷ "N" ∷ "P" ∷ "Q" ∷ "R" ∷ "S" ∷ "T" ∷ "V" ∷ "W" ∷ "X" ∷ "Y" ∷ "Z"
    ∷ []

-- CROCKFORD[byte % 32]
crockford_char : ℕ → Char
crockford_char byte = get_or crockford_chars (byte % 32) "0"

-- The characters from the byte at `i` on, `n` of them.
loc_text : List ℕ → ℕ → ℕ → String
unfolding crockford_char
loc_text b i ℕ.zero = String.[]
loc_text b i (suc n) = String.◌∷◌ (crockford_char (get_or b i 0)) (loc_text b (i + 1) n)

-- The six characters for the bytes `b` that the entropy source gave.
unfoldable pub mint_loc : List ℕ → String
unfolding loc_text
mint_loc b = loc_text b 0 6

-- The codes of the characters of a text.
abbrev pub codes : String → List ℕ
codes String.[] = []
codes (String.◌∷◌ c s) = code c ∷ codes s

-- The character of a code of CROCKFORD.
char_of : List Char → ℕ → Char
char_of [] c = "0"
char_of (d ∷ ds) c = if code d == c then d else char_of ds c

crockford_text : List ℕ → String
unfolding char_of
crockford_text [] = String.[]
crockford_text (c ∷ cs) = String.◌∷◌ (char_of crockford_chars c) (crockford_text cs)

-- normalizeLoc, from a text to a text
unfoldable pub normalize_text : String → Option String
unfolding normalize_loc crockford_text
normalize_text s = elim (normalize_loc (codes s)) [ none ↦ none | some t ↦ some (crockford_text t) ]
