-- ===== src/Examples/Packets.antt =====
-- The properties of the packet classes, the registry and parsePacket, applied.
use cerios_cluster.McPacket.Compress.{Deflater, stream_end, other_code, goes_on, compress_data}
use cerios_cluster.McPacket.Compress.Fits.{compress_data_calls}
use cerios_cluster.McPacket.VarInt.Encoding.{encode}
use cerios_cluster.Common.{
  ℕ, List, ltb, drop, take, if◌then◌else◌, ◌++◌, length, some, ◌≤◌, [], ◌∷◌, true, false, none,
  replicate, ◌≡◌, ◌⊎◌, refl, arith,
}
use cerios_cluster.Common.Outcome.{undefined, ok, endless, ◌>>=◌}
use cerios_cluster.McPacket.Base.{client_bound, server_bound, login, play}
use cerios_cluster.Examples.{an_environment, a_zlib, a_packet}
use cerios_cluster.McPacket.Messages.Wire.{arrived, receive}
use cerios_cluster.McPacket.Messages.Login.{
  LoginSuccess, serialize_login_success, parse_login_success, LoginStart, serialize_login_start,
  parse_login_start,
}
use cerios_cluster.McPacket.Messages.Login.RoundTrip.{
  receive-serialize_login_success, name_arrives, receive-serialize_login_start,
}
use cerios_cluster.McPacket.Messages.World.{JoinGame, serialize_join_game, parse_join_game}
use cerios_cluster.McPacket.Messages.World.RoundTrip.{IsJoinGame, receive-serialize_join_game}
use cerios_cluster.McPacket.Classes.{Class, login_start_packet, make, base_of}
use cerios_cluster.McPacket.Registry.{lookup, instantiate_from_data, instantiate_new}
use cerios_cluster.McPacket.Registry.Keys.{
  Receivable, made_id, lookup-Receivable, instantiate_new_lem,
}
use cerios_cluster.McPacket.Parse.{parse_packet}
use cerios_cluster.McPacket.Parse.Plain.{parse_packet-encode}
use cerios_cluster.McPacket.Parse.Compressed.{Nothing, parse_packet_compressed, parse_packet_spins}

abbrev a_success : LoginSuccess
a_success = record {
  base = a_packet 2;
  uuid = replicate 36 b'a';
  username = b'B' ∷ b'o' ∷ b'b' ∷ [];
}

receive-serialize_login_success_example :
    (serialize_login_success a_success >>= λ sent. receive sent.base (7 ∷ []) parse_login_success)
    ≡ ok (
      record {
        base = arrived 2 [];
        uuid = a_success.uuid;
        username =
            if name_arrives a_success.uuid a_success.username then a_success.username else [];
      },
      7 ∷ [],
    )
receive-serialize_login_success_example =
    receive-serialize_login_success a_success (7 ∷ []) (omega arith) (omega arith) (omega arith)

abbrev a_game : JoinGame
a_game = record {
  base = a_packet 1;
  player_entity_id = 70000;
  gamemode = 1;
  dimension_id = 255;
  difficulty = 2;
  max_players_on_player_list = 20;
  level_type = b'f' ∷ b'l' ∷ b'a' ∷ b't' ∷ [];
  reduced_debug_info = 0;
}

a_game-IsJoinGame : IsJoinGame a_game
a_game-IsJoinGame = record {
  id_fits = omega arith;
  entity_fits = omega arith;
  mode_fits = omega arith;
  dimension_fits = omega arith;
  difficulty_fits = omega arith;
  players_fit = omega arith;
  level_fits = omega arith;
  debug_fits = omega arith;
}

receive-serialize_join_game_example :
    (serialize_join_game a_game >>= λ sent. receive sent.base (7 ∷ []) parse_join_game)
    ≡ ok (record a_game { base = arrived 1 [] }, 7 ∷ [])
receive-serialize_join_game_example = receive-serialize_join_game a_game (7 ∷ []) a_game-IsJoinGame

lookup_login_start : lookup server_bound login 0 ≡ some login_start_packet
unfolding lookup
lookup_login_start = refl

lookup-Receivable_example : Receivable login login_start_packet
lookup-Receivable_example = lookup-Receivable login 0 login_start_packet lookup_login_start

instantiate_new_lem_example :
    ((lookup client_bound login 3 ≡ none)
      × (instantiate_new an_environment client_bound login 3 ≡ none))
    ⊎ ((c : Class) × (lookup client_bound login 3 ≡ some c)
        × (instantiate_new an_environment client_bound login 3
            ≡ some (make an_environment c client_bound))
        × ((base_of (make an_environment c client_bound)).packet_id ≡ made_id c 3))
instantiate_new_lem_example = instantiate_new_lem an_environment client_bound login 3

parse_packet-encode_example :
    parse_packet a_zlib 0 an_environment server_bound
      (length (encode 4 0 ++ (3 ∷ [])))
      ((encode 4 0 ++ (3 ∷ [])) ++ (7 ∷ []))
      login
      false
      true
    ≡ (instantiate_from_data an_environment server_bound login (arrived 0 (3 ∷ [])) >>= λ m.
        ok (m, 7 ∷ []))
parse_packet-encode_example =
    parse_packet-encode a_zlib 0 an_environment server_bound login 0 (3 ∷ []) (7 ∷ []) (omega arith)

encode_20 : 2 ≤ length (encode 4 20 ++ (1 ∷ (2 ∷ [])))
unfolding encode
encode_20 = omega arith

parse_packet_compressed_example : Nothing a_zlib 2 (encode 4 20 ++ (1 ∷ (2 ∷ []))) true (
    parse_packet a_zlib 9 an_environment server_bound 2
      (encode 4 20 ++ (1 ∷ (2 ∷ [])))
      play
      true
      true)
parse_packet_compressed_example =
    parse_packet_compressed a_zlib 9 an_environment server_bound 2 20 (1 ∷ (2 ∷ [])) play true
      (omega arith) (omega arith) encode_20

-- A deflater that stores its data behind two bytes of its own
abbrev a_storing_deflater : Deflater
a_storing_deflater = record {
  Stream = List ℕ;
  deflate_init = λ bytes. some (0x78 ∷ (1 ∷ bytes));
  deflate = λ stream avail_out. record {
    stream = drop avail_out stream;
    output = take avail_out stream;
    avail_in = length (drop avail_out stream);
    code = if ltb avail_out (length stream) then other_code else stream_end;
  };
}

abbrev stored : List ℕ
stored = 0x78 ∷ (1 ∷ (5 ∷ (6 ∷ [])))

compress_data_calls_example :
    compress_data a_storing_deflater 3 (5 ∷ (6 ∷ []))
    ≡ (if goes_on other_code 2 then undefined else ok (encode 4 2 ++ (0x78 ∷ (1 ∷ []))))
compress_data_calls_example =
    compress_data_calls a_storing_deflater 1 (5 ∷ (6 ∷ [])) stored refl (omega arith) (omega arith)
      (omega arith) (λ e. (refl, omega arith))

abbrev a_login : LoginStart
a_login = record { base = a_packet 0; player_name = b'B' ∷ b'o' ∷ b'b' ∷ [] }

receive-serialize_login_start_example :
    (serialize_login_start a_login >>= λ sent. receive sent.base (7 ∷ []) parse_login_start)
    ≡ ok (record a_login { base = arrived 0 [] }, 7 ∷ [])
receive-serialize_login_start_example =
    receive-serialize_login_start a_login (7 ∷ []) (omega arith) (omega arith)

parse_packet_spins_example :
    parse_packet a_zlib 1000 an_environment server_bound 3
      (encode 4 20 ++ (1 ∷ (2 ∷ [])))
      play
      true
      true
    ≡ endless
parse_packet_spins_example =
    parse_packet_spins a_zlib 1000 an_environment server_bound 3 20 (1 ∷ (2 ∷ [])) play true tt
      (omega arith) (omega arith) refl (λ s o. refl)
