-- ===== src/McPacket/Base/Header.antt =====
-- The id in front of a payload: what `serializePacket` writes and the constructor from a buffer reads.
use cerios_cluster.Common.{
  ℕ, ◌^◌, ◌<◌, List, ◌++◌, Bool, true, false, if◌then◌else◌, length, length-append, take-append,
  drop-append, ◌≡◌, arith, append_assoc,
}
use cerios_cluster.Common.Outcome.{ok}
use cerios_cluster.McPacket.Base.{
  Packet, write_var_int, serialize_base, read_var_int, packet_from_buffer, append_bytes,
  reset_buffer,
}
use cerios_cluster.McPacket.VarInt.Encoding.{encode}
use cerios_cluster.McPacket.VarInt.Write.{write_var_int_to_buffer_lem}
use cerios_cluster.McPacket.VarInt.RoundTrip.{read-encode}
use cerios_cluster.McPacket.Base.Pod.{holding}

pub write_var_int_lem :
    (p : Packet) (v : ℕ) → v < 2 ^ 32 → write_var_int p v ≡ ok (append_bytes p (encode 4 v))
unfolding write_var_int
write_var_int_lem p v h = rw (write_var_int_to_buffer_lem p.raw_payload v h)

pub serialize_base_lem :
    (p : Packet)
    → p.packet_id < 2 ^ 32
    → serialize_base p ≡ ok (append_bytes (reset_buffer p) (encode 4 p.packet_id))
unfolding serialize_base
serialize_base_lem p h = write_var_int_lem (reset_buffer p) p.packet_id h

pub read_var_int-encode :
    (p : Packet) (v : ℕ) (rest : List ℕ)
    → v < 2 ^ 32
    → read_var_int (holding p (encode 4 v ++ rest)) ≡ ok (v, holding p rest)
unfolding read_var_int
read_var_int-encode p v rest h = rw (read-encode v rest true h)

pub packet_from_buffer-encode :
    (id : ℕ) (body rest : List ℕ) (consume : Bool)
    → id < 2 ^ 32
    → packet_from_buffer (length (encode 4 id ++ body)) ((encode 4 id ++ body) ++ rest) consume
      ≡ ok (
        record { packet_id = id; raw_payload = body; compressed = false },
        if consume then rest else (encode 4 id ++ body) ++ rest,
      )
unfolding packet_from_buffer
packet_from_buffer-encode id body rest consume h =
    rw
      (
        append_assoc (encode 4 id) body rest,
        read-encode id (body ++ rest) false h,
        ← append_assoc (encode 4 id) body rest,
        take-append (encode 4 id ++ body) rest,
        drop-append (encode 4 id ++ body) rest,
        drop-append (encode 4 id) body,
      )
      (ground (arith, length-append (encode 4 id) body, length-append (encode 4 id ++ body) rest))
