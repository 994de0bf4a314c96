-- ===== src/Hex.antt =====
-- workers/pairfob-origin/src/crypto.ts (hex and route ids) and hexToRoute of room/core.ts. A byte is
-- a number below 256. A text is a list of characters; a character past 0xffff, which the source sees
-- as two code units, makes every parse fail here as it does there.
pub mod RoundTrip
pub mod Routes
use Prim.Native.Char.{Char, code}
use Prim.Native.String
use pairfob.Prelude.{
  ℕ, zero, suc, ◌+◌, ◌-◌, ◌*◌, ◌/◌, ◌%◌, String, Bool, true, false, ◌&&◌, ◌||◌, Option, none, some,
  List, [], ◌∷◌, ◌==◌, ◌===◌, leb, ltb, if◌then◌else◌, length, get_or,
}

abbrev pub hex_digits : List Char
hex_digits =
    "0" ∷ "1" ∷ "2" ∷ "3" ∷ "4" ∷ "5" ∷ "6" ∷ "7" ∷ "8" ∷ "9" ∷ "a" ∷ "b" ∷ "c" ∷ "d" ∷ "e" ∷ "f"
    ∷ []

unfoldable pub hex_digit : ℕ → Char
hex_digit n = get_or hex_digits n "0"

-- value.toString(16).padStart(2, "0"), one byte after the other
unfoldable pub bytes_to_hex : List ℕ → String
bytes_to_hex [] = String.[]
bytes_to_hex (b ∷ bytes) =
    String.◌∷◌ (hex_digit (b / 16)) (String.◌∷◌ (hex_digit (b % 16)) (bytes_to_hex bytes))

-- The value of a hexadecimal digit of either case.
abbrev pub hex_value : ℕ → Option ℕ
hex_value c =
    if leb b'0' c && leb c b'9'
    then some (c - 48)
    else if leb b'A' c && leb c b'F'
    then some (c - 55)
    else if leb b'a' c && leb c b'f'
    then some (c - 87)
    else none

-- the white space that `parseInt` skips
abbrev is_space : ℕ → Bool
is_space c =
    (leb 9 c && leb c 13)
    || c == 32
    || c == 0xa0
    || c == 0x1680
    || (leb 0x2000 c && leb c 0x200a)
    || c == 0x2028
    || c == 0x2029
    || c == 0x202f
    || c == 0x205f
    || c == 0x3000
    || c == 0xfeff

abbrev is_prefix : ℕ → ℕ → Bool
is_prefix c d = c == b'0' && (d == b'x' || d == b'X')

-- After a first digit, the second one is read or left; `0x` alone is no number.
abbrev two_digits : ℕ → ℕ → ℕ → Option ℕ → Option ℕ
two_digits c d hi none = if is_prefix c d then none else some hi
two_digits c d hi (some lo) = some (hi * 16 + lo)

abbrev negated : Option ℕ → Option ℕ
negated none = none
negated (some n) = some ((256 - n) % 256)

abbrev after_sign : ℕ → ℕ → Option ℕ
after_sign c d =
    if c == b'-'
    then negated (hex_value d)
    else if c == b'+' || is_space c
    then hex_value d
    else none

-- Number.parseInt of two characters to the base 16, as the byte that a Uint8Array stores for it;
-- `none` is NaN.
unfoldable pub parse_byte : ℕ → ℕ → Option ℕ
parse_byte c d =
    if ltb 0xffff d
    then none
    else elim (hex_value c) [ none ↦ after_sign c d | some hi ↦ two_digits c d hi (hex_value d) ]

infixl 5 ◌>>=◌
abbrev ◌>>=◌ {ℓ κ} : {A : Type ℓ} {B : Type κ} → Option A → (A → Option B) → Option B
none >>= k = none
some a >>= k = k a

-- `none` is a throw: an odd length, or a pair that is no number.
unfoldable pub hex_to_bytes : String → Option (List ℕ)
unfolding parse_byte
hex_to_bytes String.[] = some []
hex_to_bytes (String.◌∷◌ c String.[]) = none
hex_to_bytes (String.◌∷◌ c (String.◌∷◌ d rest)) = do
  n ← parse_byte (code c) (code d)
  out ← hex_to_bytes rest
  some (n ∷ out)

-- s.length, for texts without characters past 0xffff
abbrev pub text_length : String → ℕ
text_length String.[] = 0
text_length (String.◌∷◌ c s) = suc (text_length s)

unfoldable pub is_lower_hex : String → ℕ → Bool
unfolding hex_to_bytes bytes_to_hex
is_lower_hex s byte_len =
    if text_length s == byte_len * 2
    then (elim (hex_to_bytes s) [ none ↦ false | some b ↦ bytes_to_hex b === s ])
    else false

abbrev pub zero_route : List ℕ
zero_route = 0 ∷ 0 ∷ 0 ∷ 0 ∷ 0 ∷ 0 ∷ 0 ∷ 0 ∷ 0 ∷ 0 ∷ 0 ∷ 0 ∷ 0 ∷ 0 ∷ 0 ∷ 0 ∷ []

abbrev all_zero : List ℕ → Bool
all_zero [] = true
all_zero (b ∷ bs) = b == 0 && all_zero bs

unfoldable pub is_zero_route : List ℕ → Bool
is_zero_route rid = length rid == 16 && all_zero rid

unfoldable pub route_hex : List ℕ → String
unfolding bytes_to_hex
route_hex rid = bytes_to_hex rid

abbrev or_zero : Option ℕ → ℕ
or_zero none = 0
or_zero (some n) = n

-- Number.parseInt of a single character; a slice past the end is NaN, stored as 0.
abbrev one_digit : ℕ → ℕ
one_digit c = or_zero (hex_value c)

route_from : ℕ → String → List ℕ
unfolding parse_byte
route_from zero hex = []
route_from (suc n) String.[] = 0 ∷ route_from n String.[]
route_from (suc n) (String.◌∷◌ c String.[]) = one_digit (code c) ∷ route_from n String.[]
route_from (suc n) (String.◌∷◌ c (String.◌∷◌ d rest)) =
    or_zero (parse_byte (code c) (code d)) ∷ route_from n rest

unfoldable pub hex_to_route : String → List ℕ
unfolding route_from
hex_to_route hex = route_from 16 hex

-- A route id and the number of the draw after it.
pub record Drawn : Type 0 where
  pub route : List ℕ
  pub draw : ℕ

draw_route : (random : ℕ → ℕ → List ℕ) → ℕ → ℕ → Option Drawn
unfolding is_zero_route
draw_route random zero draw = none
draw_route random (suc tries) draw =
    let again = draw_route random tries (draw + 1) in
    if is_zero_route (random draw 16)
    then again
    else some (record { route = random draw 16; draw = draw + 1 })

-- `random draw n` is the answer of the entropy source to the request number `draw` for `n` bytes;
-- `none` is the throw after eight zero routes.
unfoldable pub new_route_id : (random : ℕ → ℕ → List ℕ) → ℕ → Option Drawn
unfolding draw_route
new_route_id random draw = draw_route random 8 draw
