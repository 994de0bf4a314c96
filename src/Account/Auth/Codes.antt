-- ===== src/Account/Auth/Codes.antt =====
-- A minted invite code is one that a registration may give, and enough good bytes mint one.
use Prim.Native.Char.{Char, code}
use pairfob.Prelude.{
  ℕ, zero, suc, ◌+◌, ◌%◌, ◌≤◌, ◌<◌, ◌≡◌, refl, ap, String, true, false, Option, none, some, List,
  [], ◌∷◌, ◌++◌, ◌==◌, arith, leb, ltb, length, get_or, count, All, min, All-append, length-append,
  if_rule,
}
use pairfob.Hex.{text_length}
use pairfob.Text.{
  is_space, trim, trim_start, trim_end, to_upper, special_upper, swap_case, lower_letters,
  upper_letters, every, is_upper_code,
}
use pairfob.Account.Users.{is_some}
use pairfob.Account.Auth.{invite_code_len, is_invite_code, normalize_invite_code}
use pairfob.Account.Auth.Invite.{invite_alphabet, byte_limit, add_letters, text_of, mint_from}

-- A letter that every step of the normalization leaves alone.
abbrev IsLetter : Char → Type 0
IsLetter c =
    (is_space c ≡ false)
    × (special_upper (code c) ≡ none)
    × (swap_case lower_letters upper_letters c ≡ c)
    × (is_upper_code (code c) ≡ true)

alphabet-letters : All IsLetter invite_alphabet
unfolding special_upper swap_case
alphabet-letters = search tt

get_or-IsLetter : (cs : List Char) (i : ℕ) → All IsLetter cs → IsLetter (get_or cs i "A")
unfolding special_upper swap_case
get_or-IsLetter [] i h = alphabet-letters.0
get_or-IsLetter (c ∷ cs) zero h = h.0
get_or-IsLetter (c ∷ cs) (suc i) h = get_or-IsLetter cs i h.1

text_length-text_of : (cs : List Char) → text_length (text_of cs) ≡ length cs
text_length-text_of [] = refl
text_length-text_of (c ∷ cs) = ap suc (text_length-text_of cs)

-- Letters so far, and no more than a code has.
pub record IsPart (cs : List Char) : Type 0 where
  pub letters : All IsLetter cs
  pub fits : length cs ≤ invite_code_len

add_letters-IsPart :
    (bytes : List ℕ) (out : List Char)
    → All IsLetter out
    → length out < invite_code_len
    → IsPart (add_letters bytes out)
unfolding add_letters
add_letters-IsPart [] out h short = record { letters = h; fits = omega arith }
add_letters-IsPart (byte ∷ bytes) out h short =
    let c = get_or invite_alphabet (byte % 26) "A" in
    let letter : IsLetter c = get_or-IsLetter invite_alphabet (byte % 26) alphabet-letters in
    let letters = All-append IsLetter out (c ∷ []) h (letter, tt) in
    let one_more = length-append out (c ∷ []) in
    if_rule IsPart (leb byte_limit byte) _ _ (λ _. add_letters-IsPart bytes out h short)
      (λ _.
        if_rule IsPart (length (out ++ c ∷ []) == invite_code_len) _ _
          (λ _. record { letters = letters; fits = omega arith })
          (λ e. add_letters-IsPart bytes (out ++ c ∷ []) letters (ground arith)))

trim_end-letters : (cs : List Char) → All IsLetter cs → trim_end (text_of cs) ≡ text_of cs
unfolding trim_end
trim_end-letters [] h = refl
trim_end-letters (c ∷ cs) h = rw (trim_end-letters cs h.1, h.0.0) (ground arith)

trim-letters : (cs : List Char) → All IsLetter cs → trim (text_of cs) ≡ text_of cs
unfolding trim trim_start
trim-letters [] h = trim_end-letters [] h
trim-letters (c ∷ cs) h = rw h.0.0 (trim_end-letters (c ∷ cs) h)

to_upper-letters : (cs : List Char) → All IsLetter cs → to_upper (text_of cs) ≡ text_of cs
unfolding to_upper
to_upper-letters [] h = refl
to_upper-letters (c ∷ cs) h = rw (h.0.1, h.0.2, to_upper-letters cs h.1) refl

every-letters : (cs : List Char) → All IsLetter cs → every is_upper_code (text_of cs) ≡ true
unfolding every
every-letters [] h = refl
every-letters (c ∷ cs) h = rw (h.0.3, every-letters cs h.1) refl

-- A text of four letters.
pub record IsCode (s : String) : Type 0 where
  pub chars : List Char
  pub letters : All IsLetter chars
  pub four : length chars ≡ invite_code_len
  pub same : s ≡ text_of chars

normalize-IsCode : (s : String) → IsCode s → normalize_invite_code (some s) ≡ some s
unfolding normalize_invite_code is_invite_code
normalize-IsCode s h =
    rw
      (
        h.same,
        trim-letters h.chars h.letters,
        to_upper-letters h.chars h.letters,
        every-letters h.chars h.letters,
        text_length-text_of h.chars,
        h.four,
      )
      refl

abbrev MintsCode : Option (String × ℕ) → Type 0
MintsCode o = (s : String) (d : ℕ) → o ≡ some (s, d) → IsCode s

mint_from-IsCode :
    (random : (draw size : ℕ) → List ℕ) (rounds draw : ℕ) (out : List Char)
    → All IsLetter out
    → length out < invite_code_len
    → MintsCode (mint_from random rounds draw out)
unfolding mint_from
mint_from-IsCode random zero draw out h short = λ s d e. absurd (ground arith)
mint_from-IsCode random (suc rounds) draw out h short =
    let more = add_letters (random draw invite_code_len) out in
    let part = add_letters-IsPart (random draw invite_code_len) out h short in
    if_rule MintsCode (ltb (length more) invite_code_len) _ _
      (λ less. mint_from-IsCode random rounds (draw + 1) more part.letters (ground arith))
      (λ full s d e. record {
        chars = more;
        letters = part.letters;
        four = ground (arith, part.fits);
        same = ground arith;
      })

-- Whatever bytes are drawn, a minted invite code is its own normal form: a registration that gives
-- it is read as giving it.
pub normalize_invite_code-mint_from :
    (random : (draw size : ℕ) → List ℕ) (rounds draw : ℕ) (s : String) (next : ℕ)
    → mint_from random rounds draw [] ≡ some (s, next)
    → normalize_invite_code (some s) ≡ some s
normalize_invite_code-mint_from random rounds draw s next e =
    normalize-IsCode s (mint_from-IsCode random rounds draw [] tt (omega arith) s next e)

-- The bytes of the rounds from `draw` on that are taken for a letter.
abbrev pub good_bytes : (random : (draw size : ℕ) → List ℕ) → (rounds draw : ℕ) → ℕ
good_bytes random zero draw = 0
good_bytes random (suc rounds) draw =
    count (λ byte. ltb byte byte_limit) (random draw invite_code_len)
    + good_bytes random rounds (draw + 1)

length-add_letters :
    (bytes : List ℕ) (out : List Char)
    → length out < invite_code_len
    → min invite_code_len (length out + count (λ byte. ltb byte byte_limit) bytes)
      ≤ length (add_letters bytes out)
unfolding add_letters
length-add_letters [] out short = omega arith
length-add_letters (byte ∷ bytes) out short =
    let c = get_or invite_alphabet (byte % 26) "A" in
    ground (
      arith,
      length-append out (c ∷ []),
      length-add_letters bytes out,
      length-add_letters bytes (out ++ c ∷ []),
    )

mint_succeeds :
    (random : (draw size : ℕ) → List ℕ) (rounds draw : ℕ) (out : List Char)
    → length out < invite_code_len
    → invite_code_len ≤ length out + good_bytes random rounds draw
    → is_some (mint_from random rounds draw out) ≡ true
unfolding mint_from
mint_succeeds random zero draw out short enough = absurd (omega arith)
mint_succeeds random (suc rounds) draw out short enough =
    let bytes = random draw invite_code_len in
    let grown = length-add_letters bytes out short in
    if_rule (λ (o : Option (String × ℕ)). is_some o ≡ true)
      (ltb (length (add_letters bytes out)) invite_code_len) _ _
      (λ less.
        mint_succeeds random rounds (draw + 1) (add_letters bytes out) (ground arith)
          (ground arith))
      (λ full. refl)

-- Four bytes below the limit, in as many rounds as are followed, mint a code.
pub mint_from_total :
    (random : (draw size : ℕ) → List ℕ) (rounds draw : ℕ)
    → invite_code_len ≤ good_bytes random rounds draw
    → is_some (mint_from random rounds draw []) ≡ true
mint_from_total random rounds draw enough =
    mint_succeeds random rounds draw [] (omega arith) (omega arith)
