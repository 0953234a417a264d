-- ===== src/McPacket/BitField/Wide.antt =====
-- The coordinates of a Position: fields of 26, 12 and 26 bits over 64.
use cerios_cluster.Common.{
  ℕ, ◌+◌, ◌-◌, ◌*◌, ◌/◌, ◌%◌, ◌^◌, ◌<◌, ◌≤◌, ◌≡◌, ap, ◌∙◌, bit_and, bit_or, arith, Bool-cases, inl,
  inr, ltb, if◌then◌else◌, ◌⊎◌,
}
use cerios_cluster.Common.Bits.{
  bit_or_below, bit_and_mask, bit_and_shifted, bit_or_disjoint, bit_or-lt, bit_or-zero,
  bit_and_split, bit_or_split, zero-bit_or,
}
use cerios_cluster.McPacket.Base.{Environment}
use cerios_cluster.McPacket.BitField.{
  int32, assign_as, sign_extend, minimum_type, shift_left, assign, read_field, assign_x, position,
  get_x, get_y, get_z,
}

kept_low :
    (storage : ℕ) → storage < 2 ^ 32 → bit_and storage (63 * 2 ^ 26) ≡ storage / 2 ^ 26 * 2 ^ 26
kept_low storage h = omega (arith, bit_and_shifted 26 storage 63, bit_and_mask 6 (storage / 2 ^ 26))

-- A shift that an int holds, and one that needs its sign bit.
shift_small :
    (env : Environment) (v index : ℕ)
    → index < 32
    → v * 2 ^ index < 2 ^ 31
    → shift_left env int32 v index ≡ v * 2 ^ index
unfolding shift_left
shift_small env v index h g = ground arith

shift_signed :
    (env : Environment) (v index : ℕ)
    → index < 32
    → 2 ^ 31 ≤ v * 2 ^ index
    → v * 2 ^ index < 2 ^ 32
    → shift_left env int32 v index ≡ v * 2 ^ index + (2 ^ 64 - 2 ^ 32)
unfolding shift_left
shift_signed env v index h l g = ground arith

-- The parts of an assignment that are arithmetic: what is kept, what is put there, and both.
pub put_low : (env : Environment) (v : ℕ) → v < 2 ^ 26 → shift_left env int32 v 0 ≡ v
put_low env v h = shift_small env v 0 (omega arith) (omega arith) ∙ omega arith

assign_low :
    (env : Environment) (storage value : ℕ)
    → storage < 2 ^ 32
    → assign env 0 26 storage value ≡ value % 2 ^ 26 + storage / 2 ^ 26 * 2 ^ 26
unfolding assign_as minimum_type
assign_low env storage value h =
    ap (λ (t : ℕ). bit_or t (shift_left env int32 (bit_and value (2 ^ 26 - 1)) 0) % 2 ^ 32)
      (kept_low storage h)
    ∙ ap (λ (t : ℕ). bit_or (storage / 2 ^ 26 * 2 ^ 26) (shift_left env int32 t 0) % 2 ^ 32)
        (bit_and_mask 26 value)
    ∙ ap (λ (t : ℕ). bit_or (storage / 2 ^ 26 * 2 ^ 26) t % 2 ^ 32)
        (put_low env (value % 2 ^ 26) (omega arith))
    ∙ omega (arith, bit_or_below 26 (storage / 2 ^ 26) (value % 2 ^ 26) (omega arith))

kept_middle :
    (storage : ℕ)
    → storage < 2 ^ 64
    → bit_and storage ((2 ^ 26 - 1) + (2 ^ 26 - 1) * 2 ^ 38)
      ≡ storage % 2 ^ 26 + storage / 2 ^ 38 * 2 ^ 38
kept_middle storage h =
    bit_and_split 38 storage (2 ^ 26 - 1) (2 ^ 26 - 1) (omega arith)
    ∙ omega (arith, bit_and_mask 26 (storage % 2 ^ 38), bit_and_mask 26 (storage / 2 ^ 38))

assign_middle :
    (env : Environment) (storage value : ℕ)
    → storage < 2 ^ 64
    → assign env 26 12 storage value
      ≡ bit_or
          (storage % 2 ^ 26 + storage / 2 ^ 38 * 2 ^ 38)
          (shift_left env int32 (value % 2 ^ 12) 26)
        % 2 ^ 64
unfolding assign_as minimum_type
assign_middle env storage value h =
    ap (λ (t : ℕ). bit_or t (shift_left env int32 (bit_and value (2 ^ 12 - 1)) 26) % 2 ^ 64)
      (kept_middle storage h)
    ∙ ap
        (λ (t : ℕ).
          bit_or (storage % 2 ^ 26 + storage / 2 ^ 38 * 2 ^ 38) (shift_left env int32 t 26)
          % 2 ^ 64)
        (bit_and_mask 12 value)

-- A field of twelve bits behind 26 others, with anything above it on both sides
both_middle :
    (low field high sign : ℕ)
    → low < 2 ^ 26
    → field < 2 ^ 12
    → bit_or (low + high * 2 ^ 38) (field * 2 ^ 26 + sign * 2 ^ 38) % 2 ^ 64 % 2 ^ 38
      ≡ low + field * 2 ^ 26
both_middle low field high sign h g = omega (
  arith,
  bit_or_split 38 low (field * 2 ^ 26) high sign (omega arith) (omega arith),
  bit_or_disjoint 26 low field h,
)

-- What the low 38 bits are behind an assignment of the middle field by a value below 64: six of its
-- twelve bits are set from the value, and the six above are copies of the highest of these.
low_middle :
    (env : Environment) (storage value : ℕ)
    → storage < 2 ^ 64
    → value % 2 ^ 12 < 64
    → assign env 26 12 storage value % 2 ^ 38
      ≡ storage % 2 ^ 26 + (value % 2 ^ 12 + (if ltb (value % 2 ^ 12) 32 then 0 else 4032)) * 2 ^ 26
low_middle env storage value h g =
    let v = value % 2 ^ 12 in
    let kept = storage % 2 ^ 26 + storage / 2 ^ 38 * 2 ^ 38 in
    ap (λ (t : ℕ). t % 2 ^ 38) (assign_middle env storage value h) ∙ (elim (Bool-cases (ltb v 32)) [
      | inl e ↦ rw e (
          ap (λ (t : ℕ). bit_or kept t % 2 ^ 64 % 2 ^ 38)
            (shift_small env v 26 (omega arith) (ground arith) ∙ omega arith)
          ∙ both_middle (storage % 2 ^ 26) (v + 0) (storage / 2 ^ 38) 0 (omega arith) (omega arith))
      | inr e ↦ rw e (
          ap (λ (t : ℕ). bit_or kept t % 2 ^ 64 % 2 ^ 38)
            (shift_signed env v 26 (omega arith) (ground arith) (omega arith) ∙ omega arith)
          ∙ both_middle (storage % 2 ^ 26) (v + 4032) (storage / 2 ^ 38) (2 ^ 26 - 1) (omega arith)
              (omega arith))
    ])

-- A shift by 38 is never that of the language: what the build makes of it, as an int.
shift_high : Environment → ℕ → ℕ
shift_high env value = env.wide_shift (value % 2 ^ 26) 38 % 2 ^ 32

shift_high-lt : (env : Environment) (value : ℕ) → shift_high env value < 2 ^ 32
unfolding shift_high
shift_high-lt env value = omega arith

assign_high :
    (env : Environment) (storage value : ℕ)
    → assign env 38 26 storage value
      ≡ bit_or (storage % 2 ^ 38) (sign_extend (shift_high env value)) % 2 ^ 64
unfolding assign_as minimum_type shift_left shift_high
assign_high env storage value =
    ap
      (λ (t : ℕ).
        bit_or t (sign_extend (env.wide_shift (bit_and value (2 ^ 26 - 1)) 38 % 2 ^ 32)) % 2 ^ 64)
      (bit_and_mask 38 storage)
    ∙ ap
        (λ (t : ℕ). bit_or (storage % 2 ^ 38) (sign_extend (env.wide_shift t 38 % 2 ^ 32)) % 2 ^ 64)
        (bit_and_mask 26 value)

assign_x_lem :
    (env : Environment) (raw x : ℕ)
    → assign_x env raw x ≡ raw / 2 ^ 32 * 2 ^ 32 + (x % 2 ^ 26 + raw % 2 ^ 32 / 2 ^ 26 * 2 ^ 26)
unfolding assign_x
assign_x_lem env raw x =
    ap (λ (t : ℕ). raw / 2 ^ 32 * 2 ^ 32 + t) (assign_low env (raw % 2 ^ 32) x (omega arith))

-- Only the sign of the shift reaches the upper 26 bits.
high_bits :
    (low v : ℕ)
    → low < 2 ^ 38
    → v < 2 ^ 32
    → bit_or low (sign_extend v) % 2 ^ 64 / 2 ^ 38 ≡ (if ltb v (2 ^ 31) then 0 else 2 ^ 26 - 1)
unfolding sign_extend
high_bits low v h g = elim (Bool-cases (ltb v (2 ^ 31))) [
  | inl e ↦ rw e (omega (arith, bit_or-lt 38 low v h (omega arith)))
  | inr e ↦ rw e (
      ap (λ (t : ℕ). t % 2 ^ 64 / 2 ^ 38)
        (ap (λ (t : ℕ). bit_or t (v + (2 ^ 64 - 2 ^ 32))) (omega arith)
          ∙ ap (bit_or (low + 0 * 2 ^ 38)) (omega arith)
          ∙ bit_or_split 38 low (v + 63 * 2 ^ 32) 0 (2 ^ 26 - 1) h (omega arith))
      ∙ omega (arith, zero-bit_or (2 ^ 26 - 1), bit_or-lt 38 low (v + 63 * 2 ^ 32) h (omega arith)))
]

field-lt : (y : ℕ) → y < 64 → y + (if ltb y 32 then 0 else 4032) < 2 ^ 12
field-lt y h = ground arith

-- Where the shift of z gives 0, the union holds the fields below.
position_lem :
    (env : Environment) (raw x y z : ℕ)
    → raw < 2 ^ 64
    → y < 64
    → (env.wide_shift (z % 2 ^ 26) 38 ≡ 0)
    → position env raw x y z ≡ x % 2 ^ 26 + (y + (if ltb y 32 then 0 else 4032)) * 2 ^ 26
unfolding position shift_high sign_extend
position_lem env raw x y z h g w =
    let s = assign_x env raw x in
    let small : s < 2 ^ 64 = omega (arith, assign_x_lem env raw x, h) in
    let same : y % 2 ^ 12 ≡ y = omega arith in
    let below = low_middle env s y small (omega arith) in
    assign_high env (assign env 26 12 s y) z
    ∙ ap (λ (t : ℕ). bit_or (assign env 26 12 s y % 2 ^ 38) (sign_extend (t % 2 ^ 32)) % 2 ^ 64) w
    ∙ ap (λ (t : ℕ). t % 2 ^ 64) (bit_or-zero (assign env 26 12 s y % 2 ^ 38))
    ∙ omega (
      arith,
      below,
      assign_x_lem env raw x,
      ap (λ (t : ℕ). (t + (if ltb t 32 then 0 else 4032)) * 2 ^ 26) same,
    )

-- The z of a new Position is read back as 0 or as 26 ones, whatever it was.
pub get_z-position :
    (env : Environment) (raw x y z : ℕ)
    → (get_z (position env raw x y z) ≡ 0) ⊎ (get_z (position env raw x y z) ≡ 2 ^ 26 - 1)
unfolding get_z read_field position
get_z-position env raw x y z =
    let s = assign env 26 12 (assign_x env raw x) y in
    let p = assign env 38 26 s z in
    let e : p / 2 ^ 38 ≡ (if ltb (shift_high env z) (2 ^ 31) then 0 else 2 ^ 26 - 1) =
      ap (λ (t : ℕ). t / 2 ^ 38) (assign_high env s z)
      ∙ high_bits (s % 2 ^ 38) (shift_high env z) (omega arith) (shift_high-lt env z) in
    elim (Bool-cases (ltb (shift_high env z) (2 ^ 31))) [
      | inl t ↦ inl (ground (arith, bit_and_mask 26 (p / 2 ^ 38), e, t))
      | inr t ↦ inr (ground (arith, bit_and_mask 26 (p / 2 ^ 38), e, t))
    ]

-- Where the shift of z gives 0 and y is below 64, the x of a new Position is read back in its 26 bits,
-- and y is read back below 32, and from 32 on with the six bits above it set.
pub position_flat :
    (env : Environment) (raw x y z : ℕ)
    → raw < 2 ^ 64
    → y < 64
    → (env.wide_shift (z % 2 ^ 26) 38 ≡ 0)
    → (get_x (position env raw x y z) ≡ x % 2 ^ 26)
      × (get_y (position env raw x y z) ≡ y + (if ltb y 32 then 0 else 4032))
unfolding get_x get_y read_field position
position_flat env raw x y z h g w =
    let e = position_lem env raw x y z h g w in
    (
      omega (arith, bit_and_mask 26 (position env raw x y z % 2 ^ 32 / 2 ^ 0), e),
      omega (arith, bit_and_mask 12 (position env raw x y z / 2 ^ 26), e, field-lt y g),
    )
