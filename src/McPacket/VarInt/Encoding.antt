-- ===== src/McPacket/VarInt/Encoding.antt =====
-- The format that MCPacket/Packet.cpp reads and writes, in plain arithmetic: groups of seven bits,
-- lowest first, with 128 added to each but the last.
use cerios_cluster.Common.{
  ℕ, zero, suc, ◌+◌, ◌-◌, ◌*◌, ◌/◌, ◌%◌, ◌^◌, ◌≤◌, ◌<◌, bit_and, bit_or, ◌≡◌, ap, ◌∙◌, List, [],
  ◌∷◌, ltb, ◌==◌, if◌then◌else◌, length, All, arith,
}
use cerios_cluster.Common.Bits.{bit_and_mask, bit_and_shifted, bit_or_disjoint}
use cerios_cluster.McPacket.VarInt.{group_byte}

abbrev pub IsByte : ℕ → Type 0
IsByte b = b < 2 ^ 8

-- The encoding of a number below 128 ^ (k + 1).
unfoldable pub encode : ℕ → ℕ → List ℕ
encode zero v = v ∷ []
encode (suc k) v =
    let rest = encode k (v / 128) in if ltb v 128 then v ∷ [] else (v % 128 + 128) ∷ rest

pub encode-IsByte : (k v : ℕ) → v < 128 ^ suc k → All IsByte (encode k v)
unfolding encode
encode-IsByte zero v h = omega arith
encode-IsByte (suc k) v h = ground (arith, encode-IsByte k (v / 128) (omega arith))

pub length-encode : (k v : ℕ) → (1 ≤ length (encode k v)) × (length (encode k v) ≤ k + 1)
unfolding encode
length-encode zero v = omega arith
length-encode (suc k) v = ground (arith, length-encode k (v / 128))

-- The masks of the loops, as arithmetic.
pub low_seven : (a : ℕ) → bit_and a 127 ≡ a % 128
low_seven a = bit_and_mask 7 a

pub group_byte_lem : (a : ℕ) → group_byte a ≡ a % 128 + 128
group_byte_lem a = omega (
  arith,
  ap (λ (t : ℕ). bit_or t 128 % 2 ^ 8) (low_seven a),
  bit_or_disjoint 7 (a % 128) 1 (omega arith),
)

-- No bit from the k-th on is set exactly below 2 ^ k.
pub high_bits : (k m a : ℕ) → bit_and a ((2 ^ m - 1) * 2 ^ k) ≡ a / 2 ^ k % 2 ^ m * 2 ^ k
high_bits k m a =
    bit_and_shifted k a (2 ^ m - 1) ∙ ap (λ (t : ℕ). t * 2 ^ k) (bit_and_mask m (a / 2 ^ k))

pub is_last_32 : (a : ℕ) → a < 2 ^ 32 → (bit_and a (2 ^ 32 - 128) == 0) ≡ ltb a 128
is_last_32 a h = ground (arith, high_bits 7 25 a)

pub is_last_64 : (a : ℕ) → a < 2 ^ 64 → (bit_and a (2 ^ 64 - 128) == 0) ≡ ltb a 128
is_last_64 a h = ground (arith, high_bits 7 57 a)
