-- ===== src/Gateway/Digest/Denotes.antt =====
-- The session hash of Client Gateway/Client.cpp denotes the digest as a signed number.
use cerios_cluster.Common.{
  ℕ, suc, ◌+◌, ◌-◌, ◌*◌, ◌/◌, ◌%◌, ◌^◌, ◌<◌, ◌≤◌, bit_and, List, [], ◌∷◌, true, ltb, ◌==◌,
  if◌then◌else◌, length, All, ◌≡◌, ◌≢◌, ◌↔◌, refl, ap, arith, Bool-cases, inl, inr, ◌⊎◌,
}
use cerios_cluster.Common.Bits.{bit_and_mask, bit_and-one_shifted}
use cerios_cluster.Common.Outcome.{ok}
use cerios_cluster.McPacket.VarInt.Encoding.{IsByte, high_bits}
use cerios_cluster.Gateway.Digest.{hexmap, hex_str, negate, is_negative, strip_zeros, session_hash}
use cerios_cluster.Gateway.Digest.Negation.{
  big_endian, big_endian-lt, big_endian-negate, negate-IsByte,
}
use native.Mathlib.Nat.{pow-suc}
use native.Mathlib.Decide.{dec_le}

-- The value of a lower-case hexadecimal digit, and of a text of them.
unfoldable pub digit_value : ℕ → ℕ
digit_value c = if ltb c b'a' then c - b'0' else c - b'a' + 10

-- The digits of lower-case hexadecimal notation: 0 to 9 and a to f
abbrev pub IsHexDigit : ℕ → Type 0
IsHexDigit c = ((b'0' ≤ c) × (c ≤ b'9')) ⊎ ((b'a' ≤ c) × (c ≤ b'f'))

unfoldable pub hex_value : List ℕ → ℕ
hex_value [] = 0
hex_value (c ∷ cs) = digit_value c * 16 ^ length cs + hex_value cs

digit_value-hexmap : (n : ℕ) → n < 16 → digit_value (hexmap n) ≡ n
unfolding digit_value hexmap
digit_value-hexmap n h = ground arith

hexmap-IsHexDigit : (n : ℕ) → n < 16 → IsHexDigit (hexmap n)
unfolding hexmap
hexmap-IsHexDigit n h = elim (Bool-cases (ltb n 10)) [
  | inl small ↦ inl (ground (arith, small))
  | inr large ↦ inr (ground (arith, large, h))
]

length-hex_str : (bs : List ℕ) → length (hex_str bs) ≡ length bs * 2
unfolding hex_str
length-hex_str [] = refl
length-hex_str (b ∷ bs) = omega (arith, length-hex_str bs)

powers : (bs : List ℕ) → 16 ^ length (hex_str bs) ≡ 256 ^ length bs
unfolding hex_str
powers [] = refl
powers (b ∷ bs) = omega (
  arith,
  powers bs,
  pow-suc 16 (suc (length (hex_str bs))),
  pow-suc 16 (length (hex_str bs)),
  pow-suc 256 (length bs),
)

high_nibble : (b : ℕ) → b < 2 ^ 8 → bit_and b 0xf0 / 2 ^ 4 ≡ b / 16
high_nibble b h = omega (arith, high_bits 4 4 b)

low_nibble : (b : ℕ) → bit_and b 0x0f ≡ b % 16
low_nibble b = bit_and_mask 4 b

nibbles : (b : ℕ) → b / 16 * 16 + b % 16 ≡ b
nibbles b = omega arith

-- The digits denote the number that the bytes denote.
pub hex_value-hex_str : (bs : List ℕ) → All IsByte bs → hex_value (hex_str bs) ≡ big_endian bs
unfolding hex_value hex_str big_endian
hex_value-hex_str [] h = refl
hex_value-hex_str (b ∷ bs) h =
    rw
      (
        high_nibble b h.0,
        low_nibble b,
        digit_value-hexmap (b / 16) (omega arith),
        digit_value-hexmap (b % 16) (omega arith),
        powers bs,
        hex_value-hex_str bs h.1,
      )
      (omega (
        arith,
        pow-suc 16 (length (hex_str bs)),
        ap (λ (t : ℕ). b / 16 * t) (pow-suc 16 (length (hex_str bs))),
        ap (λ (t : ℕ). b / 16 * t) (powers bs),
        ap (λ (t : ℕ). t * 256 ^ length bs) (nibbles b),
      ))

hex_str-IsHexDigit : (bs : List ℕ) → All IsByte bs → All IsHexDigit (hex_str bs)
unfolding hex_str
hex_str-IsHexDigit [] h = tt
hex_str-IsHexDigit (b ∷ bs) h =
    rw (high_nibble b h.0, low_nibble b)
      (
        hexmap-IsHexDigit (b / 16) (omega arith),
        (hexmap-IsHexDigit (b % 16) (omega arith), hex_str-IsHexDigit bs h.1),
      )

leading_zero : (c : ℕ) (cs : List ℕ) → (c == b'0') ≡ true → hex_value (c ∷ cs) ≡ hex_value cs
unfolding hex_value digit_value
leading_zero c cs e = ground arith

-- A text whose number is not 0 keeps its number when its leading zeros go, and then starts with
-- another digit.
strip_zeros_lem :
    (cs : List ℕ)
    → 0 < hex_value cs
    → All IsHexDigit cs
    → (c : ℕ) × (rest : List ℕ) × (strip_zeros cs ≡ ok (c ∷ rest))
      × (hex_value (c ∷ rest) ≡ hex_value cs)
      × (c ≢ b'0')
      × All IsHexDigit (c ∷ rest)
unfolding strip_zeros
strip_zeros_lem [] h x = absurd (unfold hex_value in omega arith)
strip_zeros_lem (c ∷ cs) h x = elim (Bool-cases (c == b'0')) [
  | inl zero_digit ↦
      let drops = leading_zero c cs zero_digit in
      let (d, rest, e, same, ne, hex) = strip_zeros_lem cs (omega arith) x.1 in
      (d, rest, rw (zero_digit, e), omega arith, ne, hex)
  | inr other ↦ (c, cs, rw other, refl, ground arith, x)
]

-- What `session_hash` makes of a digest that is not 0: lower-case hexadecimal digits, from 0 to 9 and
-- from a to f, of its absolute value as a signed number of the digest's width, with no leading zero, behind a minus sign if it is negative.
pub session_hash_lem :
    (digest : List ℕ)
    → All IsByte digest
    → 0 < big_endian digest
    → (c : ℕ) × (rest : List ℕ) × (session_hash digest
        ≡ ok (if is_negative digest then b'-' ∷ (c ∷ rest) else c ∷ rest))
      × All IsHexDigit (c ∷ rest)
      × (c ≢ b'0')
      × (hex_value (c ∷ rest) ≡ (
          if is_negative digest
          then 256 ^ length digest - big_endian digest
          else big_endian digest))
unfolding session_hash
session_hash_lem digest h pos = elim (Bool-cases (is_negative digest)) [
  | inl neg ↦
      let sum = big_endian-negate digest h pos in
      let small = big_endian-lt digest h in
      let value = hex_value-hex_str (negate digest) (negate-IsByte digest h) in
      let hex = hex_str-IsHexDigit (negate digest) (negate-IsByte digest h) in
      let (c, rest, e, same, ne, x) = strip_zeros_lem (hex_str (negate digest)) (omega arith) hex in
      (c, rest, rw (neg, e), x, ne, rw neg (omega arith))
  | inr plain ↦
      let value = hex_value-hex_str digest h in
      let hex = hex_str-IsHexDigit digest h in
      let (c, rest, e, same, ne, x) = strip_zeros_lem (hex_str digest) (omega arith) hex in
      (c, rest, rw (plain, e), x, ne, rw plain (omega arith))
]

sign_bit : (b : ℕ) → b < 2 ^ 8 → ((bit_and b 0x80 == 0x80) ≡ true) ↔ (128 ≤ b)
sign_bit b h = ground (arith, bit_and-one_shifted 7 b)

at_least : (b p r : ℕ) → r < p → 128 * p ≤ b * p + r → 128 ≤ b
at_least b p r h e = elim (dec_le 128 b) [ yes q ↦ q | no q ↦ absurd (grind arith) ]

-- Negative is what two's complement calls so: at least half of 256 ^ n.
pub is_negative_lem :
    (b : ℕ) (bs : List ℕ)
    → All IsByte (b ∷ bs)
    → (is_negative (b ∷ bs) ≡ true) ↔ (128 * 256 ^ length bs ≤ big_endian (b ∷ bs))
unfolding is_negative
is_negative_lem b bs h =
    let small = big_endian-lt bs h.1 in
    (
      λ neg. unfold big_endian in grind (arith, (sign_bit b h.0).0 neg),
      λ big.
          (sign_bit b h.0).1
            (at_least b (256 ^ length bs) (big_endian bs) small (unfold big_endian in big)),
    )
