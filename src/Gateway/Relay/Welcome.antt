-- ===== src/Gateway/Relay/Welcome.antt =====
-- addClient of Client Gateway/ClientServer.cpp: what a player is sent on its arrival.
use cerios_cluster.Common.{
  ℕ, ◌^◌, ◌<◌, List, ◌++◌, append_assoc, Option, some, length, ◌≡◌, refl, arith,
}
use cerios_cluster.Common.Outcome.{ok}
use cerios_cluster.McPacket.Base.{Environment, client_bound, play, to_bytes, write_pod}
use cerios_cluster.McPacket.VarInt.Encoding.{encode}
use cerios_cluster.McPacket.Messages.Wire.{written}
use cerios_cluster.McPacket.Base.Header.{serialize_base_lem}
use cerios_cluster.McPacket.Messages.World.{
  make_join_game, SpawnPosition, make_spawn_position, serialize_spawn_position,
}
use cerios_cluster.McPacket.Messages.World.RoundTrip.{
  IsJoinGame, join_body, serialize_join_game_lem,
}
use cerios_cluster.McPacket.Messages.Player.{
  PlayerPositionAndLook, make_player_position_and_look, serialize_player_position_and_look,
  PlayerAbilities, make_player_abilities, serialize_player_abilities,
}
use cerios_cluster.McPacket.Classes.{
  AnyPacket, a_join_game, a_spawn_position, a_player_position_and_look, a_player_abilities,
  serialize, base_of,
}
use cerios_cluster.McPacket.Registry.{instantiate_new}
use cerios_cluster.Gateway.Host.{Host}
use cerios_cluster.Gateway.Pointers.{put}
use cerios_cluster.Gateway.Client.{Turn, async_write, emit}
use cerios_cluster.Gateway.Client.Login.{same_bytes}
use cerios_cluster.Gateway.Client.Send.{get_side}
use cerios_cluster.Gateway.Client.Send.Frames.{WritesClear, send_packet_clear}
use cerios_cluster.Gateway.Relay.{
  Clients, send_new, add_client, as_join_game, as_spawn_position, as_position_and_look,
  as_abilities,
}

-- A payload behind its length
abbrev pub framed : List ℕ → List ℕ
framed payload = encode 4 (length payload) ++ payload

abbrev pub look_body : PlayerPositionAndLook → List ℕ
look_body m =
    to_bytes 8 m.x
    ++ (to_bytes 8 m.y
        ++ (to_bytes 8 m.z ++ (to_bytes 4 m.yaw ++ (to_bytes 4 m.pitch ++ to_bytes 1 m.flags))))

abbrev pub abilities_body : PlayerAbilities → List ℕ
abilities_body m =
    to_bytes 1 m.abilities ++ (to_bytes 4 m.flying_speed ++ to_bytes 4 m.walking_speed)

serialize_spawn_position_lem :
    (m : SpawnPosition)
    → m.base.packet_id < 2 ^ 32
    → serialize_spawn_position m
      ≡ ok (record m { base = written m.base.packet_id (to_bytes 8 m.spawn_position) })
unfolding serialize_spawn_position write_pod
serialize_spawn_position_lem m h = rw (serialize_base_lem m.base h) (simp append_assoc)

serialize_look_lem :
    (m : PlayerPositionAndLook)
    → m.base.packet_id < 2 ^ 32
    → serialize_player_position_and_look m
      ≡ ok (record m { base = written m.base.packet_id (look_body m) })
unfolding serialize_player_position_and_look write_pod
serialize_look_lem m h = rw (serialize_base_lem m.base h) (simp append_assoc)

serialize_abilities_lem :
    (m : PlayerAbilities)
    → m.base.packet_id < 2 ^ 32
    → serialize_player_abilities m
      ≡ ok (record m { base = written m.base.packet_id (abilities_body m) })
unfolding serialize_player_abilities write_pod
serialize_abilities_lem m h = rw (serialize_base_lem m.base h) (simp append_assoc)

module _ (env : Environment) where
  -- The four packets that newPacket makes
  join_new :
      as_join_game (instantiate_new env client_bound play 0x01) ≡ some (a_join_game make_join_game)
  unfolding as_join_game instantiate_new
  join_new = refl

  spawn_new :
      as_spawn_position (instantiate_new env client_bound play 0x05)
      ≡ some (a_spawn_position (make_spawn_position env))
  unfolding as_spawn_position instantiate_new
  spawn_new = refl

  look_new :
      as_position_and_look (instantiate_new env client_bound play 0x08)
      ≡ some (a_player_position_and_look (make_player_position_and_look env))
  unfolding as_position_and_look instantiate_new
  look_new = refl

  abilities_new :
      as_abilities (instantiate_new env client_bound play 0x39)
      ≡ some (a_player_abilities (make_player_abilities env))
  unfolding as_abilities instantiate_new
  abilities_new = refl

  -- The payloads of a player's welcome, in their order
  abbrev pub join_payload : List ℕ
  join_payload = encode 4 1 ++ join_body make_join_game

  abbrev pub spawn_payload : List ℕ
  spawn_payload = encode 4 5 ++ to_bytes 8 (make_spawn_position env).spawn_position

  abbrev pub look_payload : List ℕ
  look_payload = encode 4 8 ++ look_body (make_player_position_and_look env)

  abbrev pub abilities_payload : List ℕ
  abilities_payload = encode 4 0x39 ++ abilities_body (make_player_abilities env)

  make_join_game-IsJoinGame : IsJoinGame make_join_game
  unfolding make_join_game
  make_join_game-IsJoinGame = record {
    id_fits = omega arith;
    entity_fits = omega arith;
    mode_fits = omega arith;
    dimension_fits = omega arith;
    difficulty_fits = omega arith;
    players_fit = omega arith;
    level_fits = omega arith;
    debug_fits = omega arith;
  }

  join_serialized :
      serialize get_side (a_join_game make_join_game)
      ≡ ok (a_join_game (record make_join_game { base = written 1 (join_body make_join_game) }))
  unfolding serialize make_join_game
  join_serialized = rw (serialize_join_game_lem make_join_game make_join_game-IsJoinGame) refl

  spawn_serialized :
      serialize get_side (a_spawn_position (make_spawn_position env))
      ≡ ok (
          a_spawn_position (record (make_spawn_position env) {
            base = written 5 (to_bytes 8 (make_spawn_position env).spawn_position);
          }))
  unfolding serialize make_spawn_position
  spawn_serialized = rw (serialize_spawn_position_lem (make_spawn_position env) (omega arith)) refl

  look_serialized :
      serialize get_side (a_player_position_and_look (make_player_position_and_look env))
      ≡ ok (
          a_player_position_and_look (record (make_player_position_and_look env) {
            base = written 8 (look_body (make_player_position_and_look env));
          }))
  unfolding serialize make_player_position_and_look
  look_serialized = rw (serialize_look_lem (make_player_position_and_look env) (omega arith)) refl

  abilities_serialized :
      serialize get_side (a_player_abilities (make_player_abilities env))
      ≡ ok (
          a_player_abilities (record (make_player_abilities env) {
            base = written 0x39 (abilities_body (make_player_abilities env));
          }))
  unfolding serialize make_player_abilities
  abilities_serialized = rw (serialize_abilities_lem (make_player_abilities env) (omega arith)) refl

  join_small : length join_payload < 2 ^ 21
  unfolding encode to_bytes make_join_game
  join_small = omega arith

  spawn_small : length spawn_payload < 2 ^ 21
  unfolding encode to_bytes
  spawn_small = omega arith

  look_small : length look_payload < 2 ^ 21
  unfolding encode to_bytes
  look_small = omega arith

  abilities_small : length abilities_payload < 2 ^ 21
  unfolding encode to_bytes
  abilities_small = omega arith

module _ (h : Host) (fuel : ℕ) (env : Environment) where
  open h use {Cipher}

  -- What a player in the clear is written on its arrival.
  abbrev pub welcomed : Turn Cipher → Turn Cipher
  welcomed t =
      emit
        (emit
          (emit (emit t (async_write (framed (join_payload env))))
            (async_write (framed (spawn_payload env))))
          (async_write (framed (look_payload env))))
        (async_write (framed (abilities_payload env)))

  send_new_clear :
      (t : Turn Cipher) (p : Option AnyPacket) (m m' : AnyPacket)
      → WritesClear t
      → p ≡ some m
      → serialize get_side m ≡ ok m'
      → length (base_of m').raw_payload < 2 ^ 21
      → send_new h fuel t p ≡ ok (emit t (async_write (framed (base_of m').raw_payload)))
  unfolding send_new
  send_new_clear t p m m' clear e s small = rw e (send_packet_clear h fuel t m m' clear s small)

  -- A client in the clear that is added is written the four packets of its welcome, each in a frame of
  -- its own and in their order, and is then stored under its id.
  pub add_client_clear :
      (clients : Clients Cipher) (t : Turn Cipher)
      → WritesClear t
      → add_client h fuel env clients t
        ≡ ok (put same_bytes t.client.userid (some (welcomed t)) clients)
  unfolding add_client base_of
  add_client_clear clients t clear =
      let t₁ = emit t (async_write (framed (join_payload env))) in
      let t₂ = emit t₁ (async_write (framed (spawn_payload env))) in
      let t₃ = emit t₂ (async_write (framed (look_payload env))) in
      rw
        (
          send_new_clear t (as_join_game (instantiate_new env client_bound play 0x01))
              (a_join_game make_join_game) _ clear (join_new env) (join_serialized env)
              (join_small env),
          send_new_clear t₁ (as_spawn_position (instantiate_new env client_bound play 0x05))
              (a_spawn_position (make_spawn_position env)) _ clear (spawn_new env)
              (spawn_serialized env) (spawn_small env),
          send_new_clear t₂ (as_position_and_look (instantiate_new env client_bound play 0x08))
              (a_player_position_and_look (make_player_position_and_look env)) _ clear
              (look_new env) (look_serialized env) (look_small env),
          send_new_clear t₃ (as_abilities (instantiate_new env client_bound play 0x39))
              (a_player_abilities (make_player_abilities env)) _ clear (abilities_new env)
              (abilities_serialized env) (abilities_small env),
        )
        refl
