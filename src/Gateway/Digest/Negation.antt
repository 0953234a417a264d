-- ===== src/Gateway/Digest/Negation.antt =====
-- The two's complement of the digest in Client Gateway/Client.cpp.
use cerios_cluster.Common.{
  ℕ, ◌+◌, ◌-◌, ◌*◌, ◌%◌, ◌^◌, ◌<◌, List, [], ◌∷◌, true, if◌then◌else◌, length, All, ◌≡◌, refl, ap,
  arith, Bool-cases, inl, inr,
}
use cerios_cluster.McPacket.VarInt.Encoding.{IsByte}
use cerios_cluster.Gateway.Digest.{negate_from, negate}
use native.Mathlib.Nat.{pow-suc}

-- The number that the bytes stand for, the highest first.
unfoldable pub big_endian : List ℕ → ℕ
big_endian [] = 0
big_endian (b ∷ bs) = b * 256 ^ length bs + big_endian bs

pub big_endian-lt : (bs : List ℕ) → All IsByte bs → big_endian bs < 256 ^ length bs
unfolding big_endian
big_endian-lt [] h = omega arith
big_endian-lt (b ∷ bs) h = rw (pow-suc 256 (length bs)) (grind (arith, big_endian-lt bs h.1))

length-negate_from : (bs : List ℕ) → length (negate_from bs).0 ≡ length bs
unfolding negate_from
length-negate_from [] = refl
length-negate_from (b ∷ bs) = ground (arith, length-negate_from bs)

pub length-negate : (bs : List ℕ) → length (negate bs) ≡ length bs
unfolding negate
length-negate bs = length-negate_from bs

complement_product : (b p : ℕ) → b < 2 ^ 8 → (255 - b) * p + b * p ≡ 255 * p
complement_product b p h = omega (arith, ap (λ (t : ℕ). t * p) (back b h))
  where
    back : (b : ℕ) → b < 2 ^ 8 → 255 - b + b ≡ 255
    back b h = omega arith

negated_product : (b p : ℕ) → b < 2 ^ 8 → 0 < b → (255 - b + 1) % 256 * p + b * p ≡ 256 * p
negated_product b p h pos =
    omega (arith, ap (λ (t : ℕ). t * p) (wraps b h pos), complement_product b p h)
  where
    wraps : (b : ℕ) → b < 2 ^ 8 → 0 < b → (255 - b + 1) % 256 ≡ 255 - b + 1
    wraps b h pos = omega arith

-- A number and its complement make up 256 ^ n; the carry leaves exactly if all bytes are 0.
pub negate_from_lem :
    (bs : List ℕ)
    → All IsByte bs
    → big_endian (negate_from bs).0 + big_endian bs
      ≡ (if (negate_from bs).1 then 0 else 256 ^ length bs)
unfolding negate_from big_endian
negate_from_lem [] h = refl
negate_from_lem (b ∷ bs) h = elim (Bool-cases (negate_from bs).1) [
  | inl e ↦ ground (
    arith,
    e,
    negate_from_lem bs h.1,
    length-negate_from bs,
    negated_product b (256 ^ length bs) h.0,
    pow-suc 256 (length bs),
  )
  | inr e ↦ ground (
    arith,
    e,
    negate_from_lem bs h.1,
    length-negate_from bs,
    complement_product b (256 ^ length bs) h.0,
    pow-suc 256 (length bs),
  )
]

negate_carry : (bs : List ℕ) → (negate_from bs).1 ≡ true → big_endian bs ≡ 0
unfolding negate_from big_endian
negate_carry [] e = refl
negate_carry (b ∷ bs) e = elim (Bool-cases (negate_from bs).1) [
  | inl c ↦ ground (arith, c, negate_carry bs c)
  | inr c ↦ ground (arith, c)
]

-- The loop negates every number but 0 modulo 256 ^ n.
pub big_endian-negate :
    (bs : List ℕ)
    → All IsByte bs
    → 0 < big_endian bs
    → big_endian (negate bs) + big_endian bs ≡ 256 ^ length bs
unfolding negate
big_endian-negate bs h pos = ground (arith, negate_from_lem bs h, negate_carry bs)

negate_from-IsByte : (bs : List ℕ) → All IsByte bs → All IsByte (negate_from bs).0
unfolding negate_from
negate_from-IsByte [] h = tt
negate_from-IsByte (b ∷ bs) h = ground (arith, negate_from-IsByte bs h.1)

pub negate-IsByte : (bs : List ℕ) → All IsByte bs → All IsByte (negate bs)
unfolding negate
negate-IsByte bs h = negate_from-IsByte bs h
