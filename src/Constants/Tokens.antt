-- ===== src/Constants/Tokens.antt =====
-- Texts of random bytes against the patterns of constants.ts.
use Prim.Native.Char.{Char, code}
use pairfob.Prelude.{
  eq_iff, ℕ, zero, suc, ◌/◌, ◌%◌, ◌≡◌, refl, String, true, false, ◌===◌, List, [], ◌∷◌, length,
  arith, get_or, All,
}
use pairfob.Constants.{is_lower_hex_code, all_lower_hex, hex_word, is_ticket}
use pairfob.Hex.{hex_digits, hex_digit, bytes_to_hex}
use pairfob.Hex.RoundTrip.{AreBytes, text_length-bytes_to_hex}

abbrev Digit : Char → Type 0
Digit c = is_lower_hex_code (code c) ≡ true

-- What is read from a list of digits, or else the default, is a digit.
get_or-Digit : (cs : List Char) (n : ℕ) (d : Char) → All Digit cs → Digit d → Digit (get_or cs n d)
get_or-Digit [] n d h p = p
get_or-Digit (c ∷ cs) zero d h p = h.0
get_or-Digit (c ∷ cs) (suc n) d h p = get_or-Digit cs n d h.1 p

code-hex_digit : (n : ℕ) → Digit (hex_digit n)
unfolding hex_digit
code-hex_digit n =
    get_or-Digit hex_digits n "0"
      (
        refl,
        (
          refl,
          (
            refl,
            (
              refl,
              (
                refl,
                (
                  refl,
                  (
                    refl,
                    (refl, (refl, (refl, (refl, (refl, (refl, (refl, (refl, (refl, tt))))))))),
                  ),
                ),
              ),
            ),
          ),
        ),
      )
      refl

all_lower_hex-bytes_to_hex : (bs : List ℕ) → AreBytes bs → all_lower_hex (bytes_to_hex bs) ≡ true
unfolding bytes_to_hex all_lower_hex
all_lower_hex-bytes_to_hex [] h = refl
all_lower_hex-bytes_to_hex (b ∷ bs) h =
    ground
      (arith, code-hex_digit (b / 16), code-hex_digit (b % 16), all_lower_hex-bytes_to_hex bs h.1)

-- Sixteen random bytes in hex are a ticket.
pub bytes_to_hex-IsTicket :
    (bs : List ℕ) → AreBytes bs → length bs ≡ 16 → is_ticket (bytes_to_hex bs) ≡ true
unfolding is_ticket hex_word
bytes_to_hex-IsTicket bs h e =
    ground (arith, all_lower_hex-bytes_to_hex bs h, text_length-bytes_to_hex bs)

is_ticket_empty : is_ticket "" ≡ false
unfolding is_ticket hex_word
is_ticket_empty = refl

pub is_ticket_nonempty : (s : String) → is_ticket s ≡ true → (s === "") ≡ false
is_ticket_nonempty s h = ground (arith, eq_iff s "", eq_iff "" s, is_ticket_empty)
