-- ===== src/McPacket/Messages/Player.antt =====
-- PlayerPositionAndLookPacket and PlayerAbilitiesPacket of MCPacket/. What they read is not assigned.
use cerios_cluster.Common.{ℕ, ◌%◌, ◌^◌, true}
use cerios_cluster.Common.Outcome.{Outcome, ok, ◌>>=◌}
use cerios_cluster.McPacket.Base.{
  Packet, Environment, reset_buffer, new_base, copy_base, serialize_base, read_pod, write_pod,
}
use cerios_cluster.McPacket.BitField.{assign_flag}

pub record PlayerPositionAndLook : Type 0 where
  pub base : Packet
  pub x : ℕ
  pub y : ℕ
  pub z : ℕ
  pub yaw : ℕ
  pub pitch : ℕ
  pub flags : ℕ

-- 270.0f, 2.0f and 1.0f
abbrev pub float_270 : ℕ
float_270 = 0x43870000

abbrev pub float_2 : ℕ
float_2 = 0x40000000

abbrev pub float_1 : ℕ
float_1 = 0x3f800000

unfoldable pub make_player_position_and_look : Environment → PlayerPositionAndLook
unfolding assign_flag
make_player_position_and_look env = record {
  base = new_base 0x08;
  x = 0;
  y = 0;
  z = 0;
  yaw = float_270;
  pitch = 0;
  flags = assign_flag 2 (assign_flag 1 (assign_flag 0 (env.stale 0 % 2 ^ 8) true) true) true;
}

-- No value that is read is assigned: all members keep what the memory held.
unfoldable pub parse_player_position_and_look : Environment → Packet → PlayerPositionAndLook
parse_player_position_and_look env in_progress =
    let p₁ = (read_pod 8 (copy_base in_progress) (env.stale 1) true).1 in
    let p₂ = (read_pod 8 p₁ (env.stale 2) true).1 in
    let p₃ = (read_pod 8 p₂ (env.stale 3) true).1 in
    let p₄ = (read_pod 4 p₃ (env.stale 4) true).1 in
    let p₅ = (read_pod 4 p₄ (env.stale 5) true).1 in
    let p₆ = (read_pod 1 p₅ (env.stale 0) true).1 in
    record {
      base = reset_buffer p₆;
      x = env.stale 1;
      y = env.stale 2;
      z = env.stale 3;
      yaw = env.stale 4;
      pitch = env.stale 5;
      flags = env.stale 0;
    }

unfoldable pub serialize_player_position_and_look :
    PlayerPositionAndLook → Outcome PlayerPositionAndLook
serialize_player_position_and_look m = do
  b ← serialize_base m.base
  let b₁ = write_pod 8 b m.x
  let b₂ = write_pod 8 b₁ m.y
  let b₃ = write_pod 8 b₂ m.z
  let b₄ = write_pod 4 b₃ m.yaw
  let b₅ = write_pod 4 b₄ m.pitch
  ok (record m { base = write_pod 1 b₅ m.flags })

pub record PlayerAbilities : Type 0 where
  pub base : Packet
  pub abilities : ℕ
  pub flying_speed : ℕ
  pub walking_speed : ℕ

-- The bits of `AbilityFlags`
abbrev pub is_creative : ℕ
is_creative = 0

abbrev pub is_flying : ℕ
is_flying = 1

abbrev pub can_fly : ℕ
can_fly = 2

abbrev pub god_mode : ℕ
god_mode = 3

-- The flag isCreative is left as it was.
unfoldable pub make_player_abilities : Environment → PlayerAbilities
unfolding assign_flag
make_player_abilities env = record {
  base = new_base 0x39;
  abilities =
      assign_flag is_flying
        (assign_flag can_fly (assign_flag god_mode (env.stale 0 % 2 ^ 8) true) true) true;
  flying_speed = float_2;
  walking_speed = float_1;
}

unfoldable pub parse_player_abilities : Environment → Packet → PlayerAbilities
parse_player_abilities env in_progress =
    let p₁ = (read_pod 1 (copy_base in_progress) (env.stale 0) true).1 in
    let p₂ = (read_pod 4 p₁ (env.stale 1) true).1 in
    let p₃ = (read_pod 4 p₂ (env.stale 2) true).1 in
    record {
      base = reset_buffer p₃;
      abilities = env.stale 0;
      flying_speed = env.stale 1;
      walking_speed = env.stale 2;
    }

unfoldable pub serialize_player_abilities : PlayerAbilities → Outcome PlayerAbilities
serialize_player_abilities m = do
  b ← serialize_base m.base
  let b₁ = write_pod 1 b m.abilities
  let b₂ = write_pod 4 b₁ m.flying_speed
  ok (record m { base = write_pod 4 b₂ m.walking_speed })
