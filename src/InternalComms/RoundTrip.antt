-- ===== src/InternalComms/RoundTrip.antt =====
-- Serializing and reading the messages of InternalComms/InternalComms.cpp.
use cerios_cluster.Common.{
  take-all, take-whole, drop-whole, ℕ, ◌+◌, ◌^◌, ◌<◌, List, [], ◌∷◌, ◌++◌, append_assoc, append-nil,
  Bool, true, if◌then◌else◌, length, take, drop, length-append, ◌≡◌, refl, sym, ap, ◌∙◌, arith,
  some,
}
use cerios_cluster.Common.Outcome.{ok, ◌>>=◌}
use cerios_cluster.McPacket.Base.{to_bytes}
use cerios_cluster.McPacket.Base.Pod.{length-to_bytes, of_bytes-to_bytes, take-to_bytes}
use cerios_cluster.InternalComms.{
  Header, Message, uuid_size, header_size, header_bytes, header_of, serialize_data, from_data,
}

-- The fields fit their types, and the header counts the payload.
pub record IsMessage (m : Message) : Type 0 where
  pub uuid_fits : length m.header.player_uuid ≡ uuid_size
  pub counts : m.header.payload_length ≡ length m.payload
  pub fits : header_size + length m.payload < 2 ^ 64

pub length-header_bytes :
    (h : Header) → length h.player_uuid ≡ uuid_size → length (header_bytes h) ≡ header_size
unfolding header_bytes
length-header_bytes h e = omega (
  arith,
  length-append h.player_uuid (to_bytes 8 h.payload_length),
  length-to_bytes 8 h.payload_length,
)

-- The bytes of a header are read back, whatever follows them.
pub header_of-header_bytes :
    (h : Header) (rest : List ℕ)
    → length h.player_uuid ≡ uuid_size
    → h.payload_length < 2 ^ 64
    → header_of (header_bytes h ++ rest) ≡ h
unfolding header_of header_bytes
header_of-header_bytes h rest e hl = rw (
  append_assoc h.player_uuid (to_bytes 8 h.payload_length) rest,
  take-whole uuid_size h.player_uuid (to_bytes 8 h.payload_length ++ rest) e,
  drop-whole uuid_size h.player_uuid (to_bytes 8 h.payload_length ++ rest) e,
  take-to_bytes 8 h.payload_length rest,
  of_bytes-to_bytes 8 h.payload_length hl,
)

length_zero : (xs : List ℕ) → length xs ≡ 0 → xs ≡ []
length_zero [] e = refl
length_zero (x ∷ xs) e = absurd (omega arith)

-- The bytes of a message: its header, then its payload.
abbrev pub message_bytes : Message → List ℕ
message_bytes m = header_bytes m.header ++ m.payload

-- What serializeData appends.
pub serialize_data_lem :
    (m : Message) (output : List ℕ)
    → IsMessage m
    → serialize_data m output ≡ ok (output ++ message_bytes m)
unfolding serialize_data
serialize_data_lem m output v =
    rw (v.counts, take-all m.payload)
      (ground (arith, length_zero m.payload, append-nil (header_bytes m.header)))

pub length-message_bytes :
    (m : Message) (rest : List ℕ)
    → IsMessage m
    → length (message_bytes m ++ rest) ≡ header_size + length m.payload + length rest
length-message_bytes m rest v = omega (
  arith,
  length-append (message_bytes m) rest,
  length-append (header_bytes m.header) m.payload,
  length-header_bytes m.header v.uuid_fits,
)

pub header_of-message_bytes :
    (m : Message) (rest : List ℕ) → IsMessage m → header_of (message_bytes m ++ rest) ≡ m.header
header_of-message_bytes m rest v =
    ap header_of (append_assoc (header_bytes m.header) m.payload rest)
    ∙ header_of-header_bytes m.header (m.payload ++ rest) v.uuid_fits (omega arith)

payload_there :
    (m : Message) (rest : List ℕ)
    → IsMessage m
    → take m.header.payload_length (drop header_size (message_bytes m ++ rest)) ≡ m.payload
payload_there m rest v =
    ap (λ (t : List ℕ). take m.header.payload_length (drop header_size t))
      (append_assoc (header_bytes m.header) m.payload rest)
    ∙ ap (take m.header.payload_length) (
        drop-whole header_size (header_bytes m.header) (m.payload ++ rest)
          (length-header_bytes m.header v.uuid_fits))
    ∙ take-whole m.header.payload_length m.payload rest (sym v.counts)

behind_message :
    (m : Message) (rest : List ℕ)
    → IsMessage m
    → drop (header_size + m.header.payload_length) (message_bytes m ++ rest) ≡ rest
behind_message m rest v =
    drop-whole (header_size + m.header.payload_length) (message_bytes m) rest (
      omega (
        arith,
        v.counts,
        length-append (header_bytes m.header) m.payload,
        length-header_bytes m.header v.uuid_fits,
      ))

-- The message in front of a datagram's data is read as it was sent; if the caller consumes it, what
-- follows is left, and otherwise the data is unchanged.
pub from_data-message_bytes :
    (m : Message) (rest : List ℕ) (consume : Bool)
    → IsMessage m
    → from_data (message_bytes m ++ rest) consume
      ≡ ok (some m, if consume then rest else message_bytes m ++ rest)
unfolding from_data
from_data-message_bytes m rest consume v =
    rw (header_of-message_bytes m rest v) (
      ground
        (arith, length-message_bytes m rest v, payload_there m rest v, behind_message m rest v))

-- A serialized message, sent with others behind it, is read as it was.
pub from_data-serialize_data :
    (m : Message) (rest : List ℕ)
    → IsMessage m
    → (serialize_data m [] >>= λ sent. from_data (sent ++ rest) true) ≡ ok (some m, rest)
from_data-serialize_data m rest v =
    rw (serialize_data_lem m [] v) (from_data-message_bytes m rest true v)
