-- ===== src/Gateway/Client/Send/Frames.antt =====
-- sendPacket of Client Gateway/Client.cpp: what reaches the socket.
use cerios_cluster.Common.{
  ℕ, ◌^◌, ◌<◌, List, [], ◌++◌, append-nil, true, false, lt→ltb, length, ◌≡◌, ◌∙◌, arith,
}
use cerios_cluster.Common.Outcome.{ok}
use cerios_cluster.McPacket.Base.{server_bound, frame_packet}
use cerios_cluster.Gateway.Host.{Host}
use cerios_cluster.McPacket.VarInt.Encoding.{encode, length-encode}
use cerios_cluster.McPacket.VarInt.Size.{write_buffer_length_to_front_lem}
use cerios_cluster.McPacket.Messages.Wire.{written}
use cerios_cluster.McPacket.Messages.Login.{Encryption}
use cerios_cluster.McPacket.Messages.Login.Bounds.{serialize_encryption_lem}
use cerios_cluster.McPacket.Classes.{AnyPacket, an_encryption, base_of, serialize}
use cerios_cluster.Gateway.Client.{Client, Turn, async_write, emit, compresses}
use cerios_cluster.Gateway.Client.Send.{send_packet, send_data, compress_step, get_side}

-- A client that writes in the clear: its connection is open, and neither encryption nor compression
-- is on.
abbrev pub WritesClear : {Cipher : Type 0} → Turn Cipher → Type 0
WritesClear t =
    (t.client.alive ≡ true) × (t.client.encrypted ≡ false) × (compresses t.client ≡ false)

pub send_data_clear :
    (h : Host) (t : Turn h.Cipher) (bytes : List ℕ)
    → t.client.alive ≡ true
    → t.client.encrypted ≡ false
    → send_data h t bytes ≡ emit t (async_write bytes)
unfolding send_data
send_data_clear h t bytes ha he = simp (ha, he)

compress_step_clear :
    (h : Host) (fuel : ℕ) (c : Client h.Cipher) (m : AnyPacket)
    → compresses c ≡ false
    → compress_step h fuel c m ≡ ok (base_of m)
unfolding compress_step
compress_step_clear h fuel c m hc = rw hc

-- A packet below 2 MiB, serialized, is written to the socket of a client in the clear behind its
-- length, and the client stays as it was.
pub send_packet_clear :
    (h : Host) (fuel : ℕ) (t : Turn h.Cipher) (m m' : AnyPacket)
    → WritesClear t
    → serialize get_side m ≡ ok m'
    → length (base_of m').raw_payload < 2 ^ 21
    → send_packet h fuel t m
      ≡ ok (
          emit t
            (async_write (encode 4 (length (base_of m').raw_payload) ++ (base_of m').raw_payload)))
unfolding send_packet frame_packet
send_packet_clear h fuel t m m' (ha, he, hc) hs hl = rw (
  hs,
  compress_step_clear h fuel t.client m' hc,
  write_buffer_length_to_front_lem (base_of m').raw_payload (omega (arith, hl)),
  lt→ltb (length (base_of m').raw_payload) (2 ^ 21) hl,
  send_data_clear h t (encode 4 (length (base_of m').raw_payload) ++ (base_of m').raw_payload) ha
      he,
)

-- The encryption request that a client in the clear is sent, whatever its id, key and token, is the
-- frame of a packet with no body: the key and the token never reach the player.
pub send_packet_encryption :
    (h : Host) (fuel : ℕ) (t : Turn h.Cipher) (m : Encryption)
    → WritesClear t
    → m.base.packet_id < 2 ^ 32
    → length m.server_id < 2 ^ 32
    → length m.public_key < 2 ^ 32
    → length m.clear_verify_token < 2 ^ 32
    → send_packet h fuel t (an_encryption m)
      ≡ ok (
          emit t (
            async_write
              (encode 4 (length (encode 4 m.base.packet_id)) ++ encode 4 m.base.packet_id)))
unfolding serialize base_of
send_packet_encryption h fuel t m clear hid hs hk ht =
    send_packet_clear h fuel t (an_encryption m)
      (an_encryption (record m { base = written m.base.packet_id [] })) clear
      (rw (serialize_encryption_lem server_bound m hid hs hk ht))
      (rw (append-nil (encode 4 m.base.packet_id))
        (omega (arith, length-encode 4 m.base.packet_id)))
    ∙ rw (append-nil (encode 4 m.base.packet_id))
