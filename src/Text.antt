-- ===== src/Text.antt =====
-- What the source uses of JavaScript's texts: trim, toLowerCase, toUpperCase, length in UTF-16 units,
-- and tests on every character. A letter that is mapped to no ASCII letter is left as it is; the
-- patterns that read the results refuse it in both forms.
use Prim.Native.Char.{Char, code}
use Prim.Native.String
use pairfob.Prelude.{
  ℕ, ◌+◌, String, Bool, true, false, not, ◌&&◌, ◌||◌, List, [], ◌∷◌, ◌==◌, ◌===◌, leb,
  if◌then◌else◌, maybe, Option, none, some,
}

-- The white space of JavaScript, by its code.
abbrev pub is_space_code : ℕ → Bool
is_space_code c =
    leb 9 c && leb c 13
    || c == 0x20
    || c == 0xA0
    || c == 0x1680
    || leb 0x2000 c && leb c 0x200A
    || c == 0x2028
    || c == 0x2029
    || c == 0x202F
    || c == 0x205F
    || c == 0x3000
    || c == 0xFEFF

abbrev pub is_space : Char → Bool
is_space c = is_space_code (code c)

unfoldable pub trim_start : String → String
trim_start String.[] = String.[]
trim_start (String.◌∷◌ c s) = if is_space c then trim_start s else String.◌∷◌ c s

unfoldable pub trim_end : String → String
trim_end String.[] = String.[]
trim_end (String.◌∷◌ c s) =
    let rest = trim_end s in if rest === "" && is_space c then String.[] else String.◌∷◌ c rest

unfoldable pub trim : String → String
unfolding trim_start trim_end
trim s = trim_end (trim_start s)

-- The letters of both cases, in the same order.
abbrev pub upper_letters : List Char
upper_letters =
    "A" ∷ "B" ∷ "C" ∷ "D" ∷ "E" ∷ "F" ∷ "G" ∷ "H" ∷ "I" ∷ "J" ∷ "K" ∷ "L" ∷ "M" ∷ "N" ∷ "O" ∷ "P"
    ∷ "Q" ∷ "R" ∷ "S" ∷ "T" ∷ "U" ∷ "V" ∷ "W" ∷ "X" ∷ "Y" ∷ "Z" ∷ []

abbrev pub lower_letters : List Char
lower_letters =
    "a" ∷ "b" ∷ "c" ∷ "d" ∷ "e" ∷ "f" ∷ "g" ∷ "h" ∷ "i" ∷ "j" ∷ "k" ∷ "l" ∷ "m" ∷ "n" ∷ "o" ∷ "p"
    ∷ "q" ∷ "r" ∷ "s" ∷ "t" ∷ "u" ∷ "v" ∷ "w" ∷ "x" ∷ "y" ∷ "z" ∷ []

-- The letter of `to` where `c` stands in `from`, or else `c`.
unfoldable pub swap_case : List Char → List Char → Char → Char
swap_case (x ∷ from) (y ∷ to) c = if code x == code c then y else swap_case from to c
swap_case _ _ c = c

-- The sign for Kelvin is the one character beyond ASCII whose lower case is an ASCII letter.
unfoldable pub to_lower : String → String
unfolding swap_case
to_lower String.[] = String.[]
to_lower (String.◌∷◌ c s) =
    let rest = to_lower s in
    if code c == 0x212A
    then String.◌∷◌ "k" rest
    else String.◌∷◌ (swap_case upper_letters lower_letters c) rest

-- The characters beyond ASCII whose upper case is of ASCII letters: sharp s, the i without a dot, the
-- long s, and the ligatures of f and s.
unfoldable pub special_upper : ℕ → Option String
special_upper c =
    if c == 0xDF
    then some "SS"
    else if c == 0x131
    then some "I"
    else if c == 0x17F
    then some "S"
    else if c == 0xFB00
    then some "FF"
    else if c == 0xFB01
    then some "FI"
    else if c == 0xFB02
    then some "FL"
    else if c == 0xFB03
    then some "FFI"
    else if c == 0xFB04
    then some "FFL"
    else if c == 0xFB05 || c == 0xFB06
    then some "ST"
    else none

unfoldable pub to_upper : String → String
unfolding swap_case special_upper
to_upper String.[] = String.[]
to_upper (String.◌∷◌ c s) =
    let rest = to_upper s in
    maybe (special_upper (code c)) (String.◌∷◌ (swap_case lower_letters upper_letters c) rest)
      λ t. String.◌++◌ t rest

-- text.length
unfoldable pub units : String → ℕ
units String.[] = 0
units (String.◌∷◌ c s) = (if leb 0x10000 (code c) then 2 else 1) + units s

unfoldable pub every : (ℕ → Bool) → String → Bool
every p String.[] = true
every p (String.◌∷◌ c s) = p (code c) && every p s

abbrev pub is_lower_code : ℕ → Bool
is_lower_code c = leb b'a' c && leb c b'z'

abbrev pub is_upper_code : ℕ → Bool
is_upper_code c = leb b'A' c && leb c b'Z'

abbrev pub is_digit_code : ℕ → Bool
is_digit_code c = leb b'0' c && leb c b'9'

-- No character below a space, and no DEL.
unfoldable pub no_control : String → Bool
unfolding every
no_control s = every (λ c. leb 0x20 c && not (c == 0x7f)) s

-- replace(/\s+/g, " "), `blank` if the character before was white space
collapse_from : Bool → String → String
collapse_from blank String.[] = String.[]
collapse_from blank (String.◌∷◌ c s) =
    let rest = collapse_from (is_space c) s in
    if is_space c then (if blank then rest else String.◌∷◌ " " rest) else String.◌∷◌ c rest

unfoldable pub collapse : String → String
unfolding collapse_from
collapse s = collapse_from false s
