-- ===== src/ClientServer/GameState.antt =====
-- Client Server/GameState.hpp and EntityBase.cpp: what a node of the game keeps of a player.
pub mod Mode
use cerios_cluster.Common.{ℕ, ◌%◌, ◌^◌, List, [], Bool, false, Option, none}
use cerios_cluster.McPacket.Base.{Environment}
use cerios_cluster.McPacket.BitField.{assign, read_field, assign_flag, read_flag}

pub data Difficulty : Type 0 where
  peaceful easy normal hard : Difficulty

-- The union GameMode lies in one byte: three bits of mode, a flag, and all four of these.
unfoldable pub set_gamemode : Environment → ℕ → ℕ → ℕ
set_gamemode env mode value = assign env 0 3 mode value

unfoldable pub set_hardcore_flag : ℕ → Bool → ℕ
set_hardcore_flag mode value = assign_flag 3 mode value

unfoldable pub set_gamemode_byte : Environment → ℕ → ℕ → ℕ
set_gamemode_byte env mode value = assign env 0 4 mode value

unfoldable pub gamemode : ℕ → ℕ
gamemode mode = read_field 0 3 mode

unfoldable pub hardcore_flag : ℕ → Bool
hardcore_flag mode = read_flag 3 mode

unfoldable pub gamemode_byte : ℕ → ℕ
gamemode_byte mode = read_field 0 4 mode

-- EntityBase; EntityLiving and EntityPlayer add nothing to it.
pub record EntityBase : Type 0 where
  pub entity_id : ℕ

unfoldable pub get_entity_id : EntityBase → ℕ
get_entity_id e = e.entity_id

pub record GameState : Type 0 where
  pub client_id : List ℕ
  pub player_entity : Option EntityBase
  pub game_mode : ℕ
  pub dimension : ℕ
  pub difficulty : Difficulty
  pub show_reduced_debug_info : Bool
