-- ===== src/InternalComms/Bounds.antt =====
-- `newPacket` and `fromData` of InternalComms/InternalComms.cpp at their limits.
use cerios_cluster.Common.{
  take-all, take-whole, take-take, ℕ, ◌+◌, ◌^◌, ◌<◌, ◌≤◌, List, ◌++◌, Bool, length, take, drop,
  length-append, length-take, length-drop, ◌≡◌, refl, sym, ◌∙◌, subst, arith, none,
}
use cerios_cluster.Common.Outcome.{ok, undefined}
use cerios_cluster.InternalComms.{
  MessageId, Header, uuid_size, header_size, new_packet, header_of, from_data, get_player_id,
}
use cerios_cluster.InternalComms.RoundTrip.{IsMessage}

-- A new message is well formed if its memory was a header and its size is one.
pub new_packet-IsMessage :
    (memory : Header) (kind : MessageId) (player_id payload : List ℕ)
    → length memory.player_uuid ≡ uuid_size
    → header_size + length payload < 2 ^ 64
    → IsMessage (new_packet memory kind player_id payload)
unfolding new_packet
new_packet-IsMessage memory kind player_id payload e h = record {
  uuid_fits = ground (
    arith,
    length-take uuid_size player_id,
    length-append player_id (drop (length player_id) memory.player_uuid),
    length-drop (length player_id) memory.player_uuid,
  );
  counts = refl;
  fits = h;
}

exact_take :
    (xs ys : List ℕ) → length xs ≡ uuid_size → take uuid_size (xs ++ ys) ≡ take uuid_size xs
exact_take xs ys e =
    take-whole uuid_size xs ys e ∙ sym (subst (λ k. take k xs ≡ xs) e (take-all xs))

-- The player's id comes back from a message that is addressed with a whole UUID, and its first 36
-- bytes from one that is addressed with more.
pub get_player_id-new_packet :
    (memory : Header) (kind : MessageId) (player_id payload : List ℕ)
    → uuid_size ≤ length player_id
    → get_player_id (new_packet memory kind player_id payload) ≡ take uuid_size player_id
unfolding new_packet get_player_id
get_player_id-new_packet memory kind player_id payload h = ground (
  arith,
  take-take uuid_size player_id,
  exact_take player_id (drop (length player_id) memory.player_uuid),
)

-- Data shorter than a header is read beyond its end.
pub from_data_short :
    (raw_data : List ℕ) (consume : Bool)
    → length raw_data < header_size
    → from_data raw_data consume ≡ undefined
unfolding from_data
from_data_short raw_data consume h = ground arith

-- A header that has arrived without the whole payload gives no message, and nothing is consumed.
pub from_data_incomplete :
    (raw_data : List ℕ) (consume : Bool)
    → header_size ≤ length raw_data
    → length raw_data < header_size + (header_of raw_data).payload_length
    → header_size + (header_of raw_data).payload_length < 2 ^ 64
    → from_data raw_data consume ≡ ok (none, raw_data)
unfolding from_data
from_data_incomplete raw_data consume h less fits = ground arith

-- A length so near 2 ^ 64 that its sum with the size of a header wraps passes the test, and the
-- copy goes beyond the data.
pub from_data_wraps :
    (raw_data : List ℕ) (consume : Bool)
    → header_size ≤ length raw_data
    → length raw_data < 2 ^ 63
    → (header_of raw_data).payload_length < 2 ^ 64
    → 2 ^ 64 ≤ header_size + (header_of raw_data).payload_length
    → from_data raw_data consume ≡ undefined
unfolding from_data
from_data_wraps raw_data consume h small fits wraps = ground arith
