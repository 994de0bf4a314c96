-- ===== src/Hex/RoundTrip.antt =====
-- The hex texts that the codec writes, and that it reads them back.
use Prim.Native.Char.{code}
use pairfob.Prelude.{
  ℕ, zero, suc, ◌+◌, ◌*◌, ◌/◌, ◌%◌, ◌<◌, ◌≡◌, refl, ◌↔◌, ap, ◌∙◌, inl, inr, String, true, some,
  List, [], ◌∷◌, arith, length, All, eq_iff, Option-cases, leb,
}
use pairfob.Hex.{
  hex_digit, bytes_to_hex, hex_value, parse_byte, hex_to_bytes, text_length, is_lower_hex,
  hex_to_route, route_from, route_hex,
}

abbrev pub IsByte : ℕ → Type 0
IsByte b = b < 256

abbrev pub AreBytes : List ℕ → Type 0
AreBytes bs = All IsByte bs

-- The sixteen digits, each with its value.
hex_value-hex_digit : (n : ℕ) → n < 16 → hex_value (code (hex_digit n)) ≡ some n
unfolding hex_digit
hex_value-hex_digit zero h = refl
hex_value-hex_digit (suc zero) h = refl
hex_value-hex_digit (suc (suc zero)) h = refl
hex_value-hex_digit (suc (suc (suc zero))) h = refl
hex_value-hex_digit (suc (suc (suc (suc zero)))) h = refl
hex_value-hex_digit (suc (suc (suc (suc (suc zero))))) h = refl
hex_value-hex_digit (suc (suc (suc (suc (suc (suc zero)))))) h = refl
hex_value-hex_digit (suc (suc (suc (suc (suc (suc (suc zero))))))) h = refl
hex_value-hex_digit (suc (suc (suc (suc (suc (suc (suc (suc zero)))))))) h = refl
hex_value-hex_digit (suc (suc (suc (suc (suc (suc (suc (suc (suc zero))))))))) h = refl
hex_value-hex_digit (suc (suc (suc (suc (suc (suc (suc (suc (suc (suc zero)))))))))) h = refl
hex_value-hex_digit (suc (suc (suc (suc (suc (suc (suc (suc (suc (suc (suc zero))))))))))) h = refl
hex_value-hex_digit (suc (suc (suc (suc (suc (suc (suc (suc (suc (suc (suc (suc zero)))))))))))) h =
    refl
hex_value-hex_digit
      (suc (suc (suc (suc (suc (suc (suc (suc (suc (suc (suc (suc (suc zero))))))))))))) h =
    refl
hex_value-hex_digit
      (suc (suc (suc (suc (suc (suc (suc (suc (suc (suc (suc (suc (suc (suc zero)))))))))))))) h =
    refl
hex_value-hex_digit
      (suc (suc (suc (suc (suc (suc (suc (suc (suc (suc (suc (suc (suc (suc (suc zero)))))))))))))))
      h =
    refl
hex_value-hex_digit
      (suc
        (suc (suc (suc (suc (suc (suc (suc (suc (suc (suc (suc (suc (suc (suc (suc n))))))))))))))))
      h =
    absurd (omega arith)

-- A character with a value is no character past 0xffff.
small_of_value : (c n : ℕ) → hex_value c ≡ some n → c < 0x10000
small_of_value c n h = ground arith

parse_byte-digits :
    (c d hi lo : ℕ)
    → hex_value c ≡ some hi
    → hex_value d ≡ some lo
    → parse_byte c d ≡ some (hi * 16 + lo)
unfolding parse_byte
parse_byte-digits c d hi lo p q =
    let small : (leb d 0xffff) ≡ true = ground (arith, small_of_value d lo q) in
    rw (p, parse_byte) (rw (q, parse_byte) (ground arith))

parse_byte-hex_digit :
    (b : ℕ) → b < 256 → parse_byte (code (hex_digit (b / 16))) (code (hex_digit (b % 16))) ≡ some b
parse_byte-hex_digit b h =
    parse_byte-digits _ _ (b / 16) (b % 16) (hex_value-hex_digit (b / 16) (omega arith))
      (hex_value-hex_digit (b % 16) (omega arith))
    ∙ ap some (omega arith)

-- Reading back what was written gives the bytes.
pub hex_to_bytes-bytes_to_hex :
    (bs : List ℕ) → AreBytes bs → hex_to_bytes (bytes_to_hex bs) ≡ some bs
unfolding hex_to_bytes bytes_to_hex
hex_to_bytes-bytes_to_hex [] h = refl
hex_to_bytes-bytes_to_hex (b ∷ bs) h =
    rw (parse_byte-hex_digit b h.0, hex_to_bytes-bytes_to_hex bs h.1)

pub text_length-bytes_to_hex : (bs : List ℕ) → text_length (bytes_to_hex bs) ≡ length bs * 2
unfolding bytes_to_hex
text_length-bytes_to_hex [] = refl
text_length-bytes_to_hex (b ∷ bs) = omega (arith, text_length-bytes_to_hex bs)

parse_byte-IsByte : (c d n : ℕ) → parse_byte c d ≡ some n → n < 256
unfolding parse_byte
parse_byte-IsByte c d n h = ground arith

hex_to_bytes-AreBytes : (s : String) (bs : List ℕ) → hex_to_bytes s ≡ some bs → AreBytes bs
unfolding hex_to_bytes
hex_to_bytes-AreBytes String.[] bs h = ground arith
hex_to_bytes-AreBytes (String.◌∷◌ c String.[]) bs h = cc
hex_to_bytes-AreBytes (String.◌∷◌ c (String.◌∷◌ d rest)) bs h =
    elim (Option-cases (parse_byte (code c) (code d))) [
      | inl e ↦ absurd (ground arith)
      | inr (n, e) ↦ elim (Option-cases (hex_to_bytes rest)) [
        | inl f ↦ absurd (ground arith)
        | inr (out, f) ↦
            let same : n ∷ out ≡ bs = ground arith in
            rw (← same) (parse_byte-IsByte (code c) (code d) n e, hex_to_bytes-AreBytes rest out f)
      ]
    ]

-- The test accepts exactly the texts that some `n` bytes are written as.
pub is_lower_hex_iff :
    (s : String) (n : ℕ)
    → (is_lower_hex s n ≡ true)
      ↔ ((bs : List ℕ) × (s ≡ bytes_to_hex bs) × AreBytes bs × (length bs ≡ n))
unfolding is_lower_hex
is_lower_hex_iff s n = (to, from)
  where
    to :
        is_lower_hex s n ≡ true
        → (bs : List ℕ) × (s ≡ bytes_to_hex bs) × AreBytes bs × (length bs ≡ n)
    to h = elim (Option-cases (hex_to_bytes s)) [
      | inl e ↦ absurd (ground arith)
      | inr (bs, e) ↦
          let same : s ≡ bytes_to_hex bs = ground (arith, eq_iff (bytes_to_hex bs) s) in
          let long : text_length s ≡ length bs * 2 = rw same (text_length-bytes_to_hex bs) in
          let size : text_length s ≡ n * 2 = ground arith in
          (bs, same, hex_to_bytes-AreBytes s bs e, omega arith)
    ]

    from :
        (bs : List ℕ) × (s ≡ bytes_to_hex bs) × AreBytes bs × (length bs ≡ n)
        → is_lower_hex s n ≡ true
    from (bs, e, ok, len) =
        let read : hex_to_bytes s ≡ some bs = rw e (hex_to_bytes-bytes_to_hex bs ok) in
        let long : text_length s ≡ length bs * 2 = rw e (text_length-bytes_to_hex bs) in
        ground (arith, eq_iff (bytes_to_hex bs) s)

route_from-bytes_to_hex :
    (n : ℕ) (bs : List ℕ) → length bs ≡ n → AreBytes bs → route_from n (bytes_to_hex bs) ≡ bs
unfolding route_from bytes_to_hex
route_from-bytes_to_hex zero [] e h = refl
route_from-bytes_to_hex zero (b ∷ bs) e h = absurd (omega arith)
route_from-bytes_to_hex (suc n) [] e h = absurd (omega arith)
route_from-bytes_to_hex (suc n) (b ∷ bs) e h =
    rw (parse_byte-hex_digit b h.0, route_from-bytes_to_hex n bs (omega arith) h.1)

-- A route id survives its text: routes are looked up by hex and stamped as the same sixteen bytes.
pub hex_to_route-route_hex :
    (rid : List ℕ) → length rid ≡ 16 → AreBytes rid → hex_to_route (route_hex rid) ≡ rid
unfolding hex_to_route route_hex
hex_to_route-route_hex rid e h = route_from-bytes_to_hex 16 rid e h
