-- ===== src/McPacket/BitField.antt =====
-- MCPacket/Bitfield.hpp and the `Position` of MCPacket/Packet.hpp.
--
-- A field's storage is a number below 2 ^ width, where `width` is that of the field's type T. The
-- members of a union lie over the same bytes; on a little-endian host a narrower member is the low
-- part of a wider one.
pub mod Flags
pub mod Wide
pub mod Counting
use cerios_cluster.Common.{
  ℕ, ◌+◌, ◌-◌, ◌*◌, ◌/◌, ◌%◌, ◌^◌, bit_and, bit_or, ◌&&◌, Bool, true, false, not, ltb, leb, ◌==◌,
  if◌then◌else◌,
}
use cerios_cluster.McPacket.Base.{Environment}

-- MinimumTypeHelper: the width of the type that holds bits 0 to `last_bit` - 1.
unfoldable pub minimum_type : ℕ → ℕ
minimum_type last_bit =
    if leb last_bit 8 then 8 else if leb last_bit 16 then 16 else if leb last_bit 32 then 32 else 64

abbrev pub mask : ℕ → ℕ
mask bits = 2 ^ bits - 1

-- `~x` in a type of `width` bits
abbrev pub complement : ℕ → ℕ → ℕ
complement width x = 2 ^ width - 1 - x

-- The type of a value behind the integral promotions. The mask is an enumerator that an int holds,
-- so a smaller operand makes the masked value an int.
pub data Promoted : Type 0 where
  int32 uint32 uint64 : Promoted

-- The type of `value_ + 1` for a T of `width` bits
unfoldable pub promoted : ℕ → Promoted
promoted width = if leb width 16 then int32 else if leb width 32 then uint32 else uint64

-- The bits of an int, as bits of a 64-bit type
unfoldable pub sign_extend : ℕ → ℕ
sign_extend v = if ltb v (2 ^ 31) then v else v + (2 ^ 64 - 2 ^ 32)

-- `v << index` on an int, as 32 bits. Where an unsigned int does not hold the result, it is undefined.
unfoldable pub shift_int : Environment → ℕ → ℕ → ℕ
shift_int env v index =
    if ltb index 32 && ltb (v * 2 ^ index) (2 ^ 32)
    then v * 2 ^ index
    else env.wide_shift v index % 2 ^ 32

-- `v << index`, as 64 bits
unfoldable pub shift_left : Environment → Promoted → ℕ → ℕ → ℕ
unfolding sign_extend shift_int
shift_left env int32 v index = sign_extend (shift_int env v index)
shift_left env uint32 v index =
    if ltb index 32 then v * 2 ^ index % 2 ^ 32 else env.wide_shift v index % 2 ^ 32
shift_left env uint64 v index = v * 2 ^ index % 2 ^ 64

-- BitField<index, bits>::operator=, with the bits of a value of a type.
unfoldable pub assign_as : Environment → Promoted → (index bits : ℕ) → ℕ → ℕ → ℕ
unfolding minimum_type shift_left
assign_as env type index bits storage value =
    let width = minimum_type (index + bits) in
    bit_or (bit_and storage (complement width (mask bits * 2 ^ index % 2 ^ width)))
      (shift_left env type (bit_and value (mask bits)) index)
    % 2 ^ width

-- The same for an int, or what is promoted to one
abbrev pub assign : Environment → (index bits : ℕ) → ℕ → ℕ → ℕ
assign env = assign_as env int32

-- `operator T()`
unfoldable pub read_field : (index bits : ℕ) → ℕ → ℕ
read_field index bits storage = bit_and (storage / 2 ^ index) (mask bits)

-- `explicit operator bool()` of a field of any width
unfoldable pub is_set : Environment → (index bits : ℕ) → ℕ → Bool
unfolding shift_left
is_set env index bits storage = not (bit_and storage (shift_left env int32 (mask bits) index) == 0)

-- `operator++()` and `operator--()`: the sum has the promoted type of T.
unfoldable pub increment : Environment → (index bits : ℕ) → ℕ → ℕ
unfolding assign_as read_field promoted
increment env index bits storage =
    assign_as env (promoted (minimum_type (index + bits))) index bits storage
      (read_field index bits storage + 1)

-- `x - 1` in a promoted type, as its bits
unfoldable pub minus_one : Promoted → ℕ → ℕ
minus_one int32 v = (v + 2 ^ 32 - 1) % 2 ^ 32
minus_one uint32 v = (v + 2 ^ 32 - 1) % 2 ^ 32
minus_one uint64 v = (v + 2 ^ 64 - 1) % 2 ^ 64

unfoldable pub decrement : Environment → (index bits : ℕ) → ℕ → ℕ
unfolding assign_as read_field promoted minus_one
decrement env index bits storage =
    let type = promoted (minimum_type (index + bits)) in
    assign_as env type index bits storage (minus_one type (read_field index bits storage))

-- `operator++(int)` and `operator--(int)`: the storage, and the value returned. Both call the prefix
-- increment.
unfoldable pub post_increment : Environment → (index bits : ℕ) → ℕ → ℕ × ℕ
unfolding increment
post_increment env index bits storage =
    (increment env index bits storage, read_field index bits storage)

unfoldable pub post_decrement : Environment → (index bits : ℕ) → ℕ → ℕ × ℕ
unfolding increment
post_decrement env index bits storage =
    (increment env index bits storage, read_field index bits storage)

abbrev pub bit_of : Bool → ℕ
bit_of true = 1
bit_of false = 0

-- BitField<index, 1>::operator=(bool) over a uint8_t
unfoldable pub assign_flag : (index : ℕ) → ℕ → Bool → ℕ
assign_flag index storage value =
    bit_or (bit_and storage (complement 8 (2 ^ index))) (bit_of value * 2 ^ index)

-- `explicit operator bool()`
unfoldable pub read_flag : (index : ℕ) → ℕ → Bool
read_flag index storage = not (bit_and storage (2 ^ index) == 0)

-- The member x of a Position is a uint32_t over the low half of the raw position.
unfoldable pub assign_x : Environment → ℕ → ℕ → ℕ
unfolding assign_as
assign_x env raw value = raw / 2 ^ 32 * 2 ^ 32 + assign env 0 26 (raw % 2 ^ 32) value

-- `Position(x, y, z)`, with the bits of three ints, over memory that holds `raw`
unfoldable pub position : Environment → ℕ → ℕ → ℕ → ℕ → ℕ
unfolding assign_x assign_as
position env raw x y z = assign env 38 26 (assign env 26 12 (assign_x env raw x) y) z

-- `Position()`
unfoldable pub default_position : Environment → ℕ → ℕ
unfolding position
default_position env raw = position env raw 0 64 0

-- getX and getZ convert an unsigned field to int32_t, and getY to int16_t.
unfoldable pub get_x : ℕ → ℕ
unfolding read_field
get_x raw = read_field 0 26 (raw % 2 ^ 32)

unfoldable pub get_y : ℕ → ℕ
unfolding read_field
get_y raw = read_field 26 12 raw

unfoldable pub get_z : ℕ → ℕ
unfolding read_field
get_z raw = read_field 38 26 raw
