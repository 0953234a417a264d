-- ===== src/Gateway/Uuid/Shape.antt =====
-- The shape of the UUIDs of Client Gateway/Client.cpp.
use cerios_cluster.Common.{
  ℕ, zero, suc, ◌*◌, ◌/◌, ◌%◌, ◌<◌, List, [], ◌∷◌, true, false, length, take, length-take,
  length-drop, length-append, All, ◌≡◌, refl, arith,
}
use cerios_cluster.McPacket.VarInt.Encoding.{IsByte}
use cerios_cluster.Gateway.Digest.{stream_digit, make_hex_string}
use cerios_cluster.Gateway.Uuid.{
  is_xdigit, all_xdigits, matches_uuid, dashed, format_uuid, offline_id,
}

-- Five groups and four dashes.
length-dashed : (text : List ℕ) → length text ≡ 32 → length (dashed text) ≡ 36
unfolding dashed
length-dashed text h = simp (length-append, length-take, length-drop) (omega arith)

matches-length : (text : List ℕ) → matches_uuid text ≡ true → length text ≡ 32
unfolding matches_uuid
matches-length text e = ground arith

not-matches-dashed : (text : List ℕ) → length text ≡ 32 → matches_uuid (dashed text) ≡ false
unfolding matches_uuid
not-matches-dashed text h = ground (arith, length-dashed text h)

-- Formatting twice is formatting once.
pub format_uuid-format_uuid :
    (userid : List ℕ) → format_uuid (format_uuid userid) ≡ format_uuid userid
unfolding format_uuid
format_uuid-format_uuid userid =
    ground (arith, matches-length userid, length-dashed userid, not-matches-dashed userid)

stream_digit-xdigit : (n : ℕ) → n < 16 → is_xdigit (stream_digit true n) ≡ true
unfolding is_xdigit stream_digit
stream_digit-xdigit n h = ground arith

length-make_hex_string : (bs : List ℕ) → length (make_hex_string bs true false) ≡ 2 * length bs
unfolding make_hex_string
length-make_hex_string [] = refl
length-make_hex_string (b ∷ []) = omega arith
length-make_hex_string (b ∷ c ∷ bs) = omega (arith, length-make_hex_string (c ∷ bs))

make_hex_string-xdigits :
    (bs : List ℕ) → All IsByte bs → all_xdigits (make_hex_string bs true false) ≡ true
unfolding make_hex_string all_xdigits
make_hex_string-xdigits [] h = refl
make_hex_string-xdigits (b ∷ []) h =
    rw (stream_digit-xdigit (b / 16) (omega arith), stream_digit-xdigit (b % 16) (omega arith))
make_hex_string-xdigits (b ∷ c ∷ bs) h =
    rw (stream_digit-xdigit (b / 16) (omega arith), stream_digit-xdigit (b % 16) (omega arith))
      (make_hex_string-xdigits (c ∷ bs) h.1)

all_xdigits-take : (n : ℕ) (cs : List ℕ) → all_xdigits cs ≡ true → all_xdigits (take n cs) ≡ true
unfolding all_xdigits
all_xdigits-take zero cs h = refl
all_xdigits-take (suc n) [] h = refl
all_xdigits-take (suc n) (c ∷ cs) h = ground (arith, all_xdigits-take n cs)

formatted_length :
    (digits : List ℕ)
    → length digits ≡ 32
    → all_xdigits digits ≡ true
    → length (format_uuid digits) ≡ 36
unfolding format_uuid matches_uuid
formatted_length digits h e = ground (arith, h, e, length-dashed digits h)

-- The id of a loopback client is a formatted UUID: it has the 36 bytes that an internal message
-- holds, and no second formatting changes it.
pub offline_id_lem :
    (hash_data : List ℕ)
    → All IsByte hash_data
    → length hash_data ≡ 32
    → (length (offline_id hash_data) ≡ 36)
      × (format_uuid (offline_id hash_data) ≡ offline_id hash_data)
unfolding offline_id
offline_id_lem hash_data h e =
    let digits : List ℕ = take 32 (make_hex_string hash_data true false) in
    let long : length digits ≡ 32 = omega (
      arith,
      length-take 32 (make_hex_string hash_data true false),
      length-make_hex_string hash_data,
    ) in
    let good : all_xdigits digits ≡ true =
      all_xdigits-take 32 (make_hex_string hash_data true false)
        (make_hex_string-xdigits hash_data h) in
    (formatted_length digits long good, format_uuid-format_uuid digits)
