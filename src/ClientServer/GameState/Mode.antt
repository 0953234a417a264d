-- ===== src/ClientServer/GameState/Mode.antt =====
-- The union GameMode of Client Server/GameState.hpp: three members over one byte.
use cerios_cluster.Common.{
  ℕ, ◌+◌, ◌-◌, ◌*◌, ◌/◌, ◌%◌, ◌^◌, ◌<◌, ◌≡◌, refl, ap, ◌∙◌, Bool, true, false, ◌==◌, ==_iff,
  bit_and, bit_or, arith,
}
use cerios_cluster.Common.Bits.{bit_and_mask, bit_and_shifted, bit_or_below}
use cerios_cluster.Common.Tables.{every_below, every_below→at}
use cerios_cluster.McPacket.Base.{Environment}
use cerios_cluster.McPacket.BitField.{
  int32, shift_left, assign_as, minimum_type, read_field, assign_flag, read_flag, bit_of,
}
use cerios_cluster.McPacket.BitField.Wide.{put_low}
use cerios_cluster.ClientServer.GameState.{
  set_gamemode, set_hardcore_flag, gamemode, hardcore_flag, gamemode_byte,
}

bit_of-lt : (b : Bool) → bit_of b < 2
bit_of-lt true = omega arith
bit_of-lt false = omega arith

kept_high : (mode : ℕ) → mode < 2 ^ 8 → bit_and mode (31 * 2 ^ 3) ≡ mode / 2 ^ 3 * 2 ^ 3
kept_high mode h = omega (arith, bit_and_shifted 3 mode 31, bit_and_mask 5 (mode / 2 ^ 3))

set_gamemode_lem :
    (env : Environment) (mode value : ℕ)
    → mode < 2 ^ 8
    → set_gamemode env mode value ≡ mode / 8 * 8 + value % 8
unfolding set_gamemode assign_as minimum_type
set_gamemode_lem env mode value h =
    ap (λ (t : ℕ). bit_or t (shift_left env int32 (bit_and value (2 ^ 3 - 1)) 0) % 2 ^ 8)
      (kept_high mode h)
    ∙ ap (λ (t : ℕ). bit_or (mode / 2 ^ 3 * 2 ^ 3) (shift_left env int32 t 0) % 2 ^ 8)
        (bit_and_mask 3 value)
    ∙ ap (λ (t : ℕ). bit_or (mode / 2 ^ 3 * 2 ^ 3) t % 2 ^ 8)
        (put_low env (value % 2 ^ 3) (omega arith))
    ∙ omega (arith, bit_or_below 3 (mode / 2 ^ 3) (value % 2 ^ 3) (omega arith))

flag_table :
    (b : Bool)
    → every_below 256 (λ s. assign_flag 3 s b == s / 16 * 16 + bit_of b * 8 + s % 8) ≡ true
unfolding every_below assign_flag
flag_table true = refl
flag_table false = refl

set_hardcore_flag_lem :
    (mode : ℕ) (b : Bool)
    → mode < 2 ^ 8
    → set_hardcore_flag mode b ≡ mode / 16 * 16 + bit_of b * 8 + mode % 8
unfolding set_hardcore_flag
set_hardcore_flag_lem mode b h = (==_iff _ _).0 (
    every_below→at 256 (λ s. assign_flag 3 s b == s / 16 * 16 + bit_of b * 8 + s % 8) mode
      (flag_table b) h)

hardcore_flag_lem :
    (high low : ℕ) (b : Bool) → low < 8 → hardcore_flag (high * 16 + bit_of b * 8 + low) ≡ b
unfolding hardcore_flag read_flag
hardcore_flag_lem high low true h = ground (
  arith,
  bit_and_shifted 3 (high * 16 + 1 * 8 + low) 1,
  bit_and_mask 1 ((high * 16 + 1 * 8 + low) / 2 ^ 3),
)
hardcore_flag_lem high low false h = ground (
  arith,
  bit_and_shifted 3 (high * 16 + 0 * 8 + low) 1,
  bit_and_mask 1 ((high * 16 + 0 * 8 + low) / 2 ^ 3),
)

-- In a byte, the mode and the hardcore flag are set in either order with the same result: the mode
-- reads as its lowest three bits, the flag as it was set, the member over both as the two together, and
-- the upper four bits are as they were.
pub set_hardcore_flag-set_gamemode :
    (env : Environment) (mode value : ℕ) (b : Bool)
    → mode < 2 ^ 8
    → let both = set_hardcore_flag (set_gamemode env mode value) b in
      (set_gamemode env (set_hardcore_flag mode b) value ≡ both)
      × (gamemode both ≡ value % 8)
      × (hardcore_flag both ≡ b)
      × (gamemode_byte both ≡ bit_of b * 8 + value % 8)
      × (both / 16 ≡ mode / 16)
unfolding gamemode gamemode_byte read_field
set_hardcore_flag-set_gamemode env mode value b h =
    let small : bit_of b < 2 = bit_of-lt b in
    let e : set_hardcore_flag (set_gamemode env mode value) b
        ≡ mode / 16 * 16 + bit_of b * 8 + value % 8 =
      omega (
        arith,
        set_gamemode_lem env mode value h,
        set_hardcore_flag_lem (set_gamemode env mode value) b
            (omega (arith, set_gamemode_lem env mode value h)),
      ) in
    (
      omega (
        arith,
        e,
        set_hardcore_flag_lem mode b h,
        set_gamemode_lem env (set_hardcore_flag mode b) value
            (omega (arith, set_hardcore_flag_lem mode b h)),
      ),
      omega (arith, e, bit_and_mask 3 (set_hardcore_flag (set_gamemode env mode value) b / 2 ^ 0)),
      ap hardcore_flag e ∙ hardcore_flag_lem (mode / 16) (value % 8) b (omega arith),
      omega (arith, e, bit_and_mask 4 (set_hardcore_flag (set_gamemode env mode value) b / 2 ^ 0)),
      omega (arith, e),
    )
