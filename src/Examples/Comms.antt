-- ===== src/Examples/Comms.antt =====
-- The properties of the internal messages, the digest, the UUIDs and the console, applied.
use cerios_cluster.Common.{
  ℕ, zero, suc, ◌-◌, ◌^◌, ◌<◌, List, [], ◌∷◌, ◌++◌, true, some, if◌then◌else◌, length, replicate,
  ◌≡◌, ◌≢◌, ◌⊎◌, ◌↔◌, All, refl, arith,
}
use cerios_cluster.Common.Outcome.{ok, ◌>>=◌}
use cerios_cluster.InternalComms.{Message, serialize_data, from_data}
use cerios_cluster.InternalComms.RoundTrip.{IsMessage, from_data-serialize_data}
use cerios_cluster.Gateway.Digest.{session_hash, is_negative}
use cerios_cluster.Gateway.Digest.Negation.{big_endian}
use cerios_cluster.Gateway.Digest.Denotes.{IsHexDigit, hex_value, session_hash_lem}
use cerios_cluster.McPacket.VarInt.Encoding.{IsByte}
use cerios_cluster.Gateway.Uuid.{offline_id, format_uuid}
use cerios_cluster.Gateway.Uuid.Shape.{offline_id_lem}
use cerios_cluster.Gateway.Console.{string_compare}
use cerios_cluster.Gateway.Console.Accepts.{Agrees, string_compare_accepts}

abbrev pub a_message : Message
a_message = record {
  header = record {
    id = 2;
    packet_number = 5;
    player_uuid = replicate 36 b'a';
    payload_length = 3;
  };
  payload = 1 ∷ 2 ∷ 3 ∷ [];
}

pub a_message-IsMessage : IsMessage a_message
a_message-IsMessage = record { uuid_fits = refl; counts = refl; fits = omega arith }

from_data-serialize_data_example :
    (serialize_data a_message [] >>= λ sent. from_data (sent ++ (9 ∷ [])) true)
    ≡ ok (some a_message, 9 ∷ [])
from_data-serialize_data_example = from_data-serialize_data a_message (9 ∷ []) a_message-IsMessage

abbrev a_digest : List ℕ
a_digest = 200 ∷ 1 ∷ []

a_digest_positive : 0 < big_endian a_digest
unfolding big_endian
a_digest_positive = omega arith

session_hash_lem_example :
    (c : ℕ) × (rest : List ℕ) × (session_hash a_digest
      ≡ ok (if is_negative a_digest then b'-' ∷ (c ∷ rest) else c ∷ rest))
    × All IsHexDigit (c ∷ rest)
    × (c ≢ b'0')
    × (hex_value (c ∷ rest) ≡ (
        if is_negative a_digest
        then 256 ^ length a_digest - big_endian a_digest
        else big_endian a_digest))
session_hash_lem_example =
    session_hash_lem a_digest (omega arith, (omega arith, tt)) a_digest_positive

string_compare_accepts_example :
    (string_compare (b'x' ∷ []) (b's' ∷ b't' ∷ []) ≡ true)
    ↔ (Agrees (b'x' ∷ []) (b's' ∷ b't' ∷ []) ⊎ (1 < 2))
string_compare_accepts_example = string_compare_accepts (b'x' ∷ []) (b's' ∷ b't' ∷ [])

abbrev a_sha256 : List ℕ
a_sha256 = replicate 32 171

replicate-IsByte : (n : ℕ) → All IsByte (replicate n 171)
replicate-IsByte zero = tt
replicate-IsByte (suc n) = (omega arith, replicate-IsByte n)

offline_id_lem_example :
    (length (offline_id a_sha256) ≡ 36) × (format_uuid (offline_id a_sha256) ≡ offline_id a_sha256)
offline_id_lem_example = offline_id_lem a_sha256 (replicate-IsByte 32) refl
