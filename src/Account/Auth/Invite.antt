-- ===== src/Account/Auth/Invite.antt =====
-- The four letters of an invite code, drawn without bias.
use Prim.Native.Char.{Char}
use pairfob.Prelude.{
  ℕ, zero, suc, ◌+◌, ◌%◌, String, Option, none, some, List, [], ◌∷◌, ◌++◌, ◌==◌, leb, ltb,
  if◌then◌else◌, length, get_or,
}
use pairfob.Account.Auth.{invite_code_len}

-- INVITE_ALPHABET
abbrev pub invite_alphabet : List Char
invite_alphabet =
    "A" ∷ "B" ∷ "C" ∷ "D" ∷ "E" ∷ "F" ∷ "G" ∷ "H" ∷ "I" ∷ "J" ∷ "K" ∷ "L" ∷ "M" ∷ "N" ∷ "O" ∷ "P"
    ∷ "Q" ∷ "R" ∷ "S" ∷ "T" ∷ "U" ∷ "V" ∷ "W" ∷ "X" ∷ "Y" ∷ "Z" ∷ []

-- 256 less what the last round of the alphabet leaves over
abbrev pub byte_limit : ℕ
byte_limit = 234

-- One pass over the bytes drawn; the letters so far are in order.
unfoldable pub add_letters : List ℕ → List Char → List Char
add_letters [] out = out
add_letters (byte ∷ bytes) out =
    let kept = out ++ get_or invite_alphabet (byte % 26) "A" ∷ [] in
    if leb byte_limit byte
    then add_letters bytes out
    else (let rest = add_letters bytes kept in
        if length kept == invite_code_len then kept else rest)

abbrev pub text_of : List Char → String
text_of [] = String.[]
text_of (c ∷ cs) = String.◌∷◌ c (text_of cs)

-- The `while` loop, for a number of rounds; `draw` counts the calls of the entropy source.
unfoldable pub mint_from :
    (random : (draw size : ℕ) → List ℕ) → (rounds draw : ℕ) → List Char → Option (String × ℕ)
unfolding add_letters
mint_from random zero draw out = none
mint_from random (suc rounds) draw out =
    let more = add_letters (random draw invite_code_len) out in
    let rest = mint_from random rounds (draw + 1) more in
    if ltb (length more) invite_code_len then rest else some (text_of more, draw + 1)
