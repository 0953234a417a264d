-- ===== src/McPacket/BitField/Counting.antt =====
-- The increments and decrements of MCPacket/Bitfield.hpp, at the widest field of a Position.
use cerios_cluster.Common.{
  ℕ, ◌+◌, ◌-◌, ◌*◌, ◌/◌, ◌%◌, ◌^◌, ◌<◌, ◌≡◌, ap, ◌∙◌, bit_and, bit_or, arith,
}
use cerios_cluster.Common.Bits.{bit_and_mask, bit_or_disjoint}
use cerios_cluster.McPacket.Base.{Environment}
use cerios_cluster.McPacket.BitField.{
  uint64, shift_left, assign_as, minimum_type, read_field, increment, minus_one, decrement,
  post_decrement,
}

-- The field's own type has 64 bits, so a sum with it is shifted in 64 bits and reaches the field.
in_place : (value : ℕ) → value % 2 ^ 26 * 2 ^ 38 % 2 ^ 64 ≡ value % 2 ^ 26 * 2 ^ 38
in_place value = omega arith

assign_wide :
    (env : Environment) (storage value : ℕ)
    → assign_as env uint64 38 26 storage value ≡ storage % 2 ^ 38 + value % 2 ^ 26 * 2 ^ 38
unfolding assign_as minimum_type shift_left
assign_wide env storage value =
    ap (λ (t : ℕ). bit_or t (bit_and value (2 ^ 26 - 1) * 2 ^ 38 % 2 ^ 64) % 2 ^ 64)
      (bit_and_mask 38 storage)
    ∙ ap (λ (t : ℕ). bit_or (storage % 2 ^ 38) (t * 2 ^ 38 % 2 ^ 64) % 2 ^ 64)
        (bit_and_mask 26 value)
    ∙ ap (λ (t : ℕ). bit_or (storage % 2 ^ 38) t % 2 ^ 64) (in_place value)
    ∙ omega (arith, bit_or_disjoint 38 (storage % 2 ^ 38) (value % 2 ^ 26) (omega arith))

increment_z :
    (env : Environment) (storage : ℕ)
    → increment env 38 26 storage ≡ storage % 2 ^ 38 + (storage / 2 ^ 38 + 1) % 2 ^ 26 * 2 ^ 38
unfolding increment read_field
increment_z env storage =
    assign_wide env storage (bit_and (storage / 2 ^ 38) (2 ^ 26 - 1) + 1)
    ∙ omega (arith, bit_and_mask 26 (storage / 2 ^ 38))

decrement_z :
    (env : Environment) (storage : ℕ)
    → decrement env 38 26 storage
      ≡ storage % 2 ^ 38 + (storage / 2 ^ 38 + (2 ^ 26 - 1)) % 2 ^ 26 * 2 ^ 38
unfolding decrement read_field minus_one
decrement_z env storage =
    assign_wide env storage ((bit_and (storage / 2 ^ 38) (2 ^ 26 - 1) + 2 ^ 64 - 1) % 2 ^ 64)
    ∙ omega (arith, bit_and_mask 26 (storage / 2 ^ 38))

-- A decrement of the z of a Position undoes its increment, and the increment its decrement, whatever
-- x and y are; its postfix decrement raises it by one instead, modulo 2 ^ 26, and gives the z from
-- before.
pub decrement-increment :
    (env : Environment) (storage : ℕ)
    → storage < 2 ^ 64
    → (decrement env 38 26 (increment env 38 26 storage) ≡ storage)
      × (increment env 38 26 (decrement env 38 26 storage) ≡ storage)
      × (post_decrement env 38 26 storage
          ≡ (storage % 2 ^ 38 + (storage / 2 ^ 38 + 1) % 2 ^ 26 * 2 ^ 38, storage / 2 ^ 38))
unfolding post_decrement read_field
decrement-increment env storage h = (
  omega (arith, decrement_z env (increment env 38 26 storage), increment_z env storage),
  omega (arith, increment_z env (decrement env 38 26 storage), decrement_z env storage),
  ap (λ (t : ℕ). (t, bit_and (storage / 2 ^ 38) (2 ^ 26 - 1))) (increment_z env storage)
      ∙ ap (λ (t : ℕ). (storage % 2 ^ 38 + (storage / 2 ^ 38 + 1) % 2 ^ 26 * 2 ^ 38, t))
          (omega (arith, bit_and_mask 26 (storage / 2 ^ 38))),
)
