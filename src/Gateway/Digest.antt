-- ===== src/Gateway/Digest.antt =====
-- Client Gateway/Client.cpp and hexstring.hpp: texts of hexadecimal digits, and the session hash.
--
-- A text is the list of its bytes, and SHA1 a parameter where it is used; here is what is done with
-- its digest.
pub mod Negation
pub mod Denotes
use cerios_cluster.Common.{
  ℕ, ◌+◌, ◌-◌, ◌/◌, ◌%◌, ◌^◌, bit_and, List, [], ◌∷◌, ◌++◌, Bool, true, false, ◌&&◌, not, ltb, ◌==◌,
  if◌then◌else◌,
}
use cerios_cluster.Common.Outcome.{Outcome, ok, undefined, ◌>>=◌}

-- `hexmap`
unfoldable pub hexmap : ℕ → ℕ
hexmap n = if ltb n 10 then b'0' + n else b'a' + (n - 10)

-- hexStr
unfoldable pub hex_str : List ℕ → List ℕ
hex_str [] = []
hex_str (b ∷ bs) = hexmap (bit_and b 0xf0 / 2 ^ 4) ∷ (hexmap (bit_and b 0x0f) ∷ hex_str bs)

-- A hexadecimal digit as a stream prints it
unfoldable pub stream_digit : Bool → ℕ → ℕ
stream_digit use_uppercase n =
    if ltb n 10 then b'0' + n else (if use_uppercase then b'A' else b'a') + (n - 10)

-- make_hex_string: two digits for each byte (`std::setw(2)` with the fill '0').
unfoldable pub make_hex_string : List ℕ → (use_uppercase insert_spaces : Bool) → List ℕ
unfolding stream_digit
make_hex_string [] use_uppercase insert_spaces = []
make_hex_string (b ∷ []) use_uppercase insert_spaces =
    stream_digit use_uppercase (b / 16) ∷ (stream_digit use_uppercase (b % 16) ∷ [])
make_hex_string (b ∷ c ∷ bs) use_uppercase insert_spaces =
    let rest = make_hex_string (c ∷ bs) use_uppercase insert_spaces in
    stream_digit use_uppercase (b / 16)
    ∷ (stream_digit use_uppercase (b % 16) ∷ (if insert_spaces then b' ' ∷ rest else rest))

-- The loop over the digest from its last byte: complement, and add the carry. The carry starts set.
unfoldable pub negate_from : List ℕ → List ℕ × Bool
negate_from [] = ([], true)
negate_from (b ∷ bs) =
    let (rest, carry) = negate_from bs in
    let flipped = 2 ^ 8 - 1 - b in
    if carry then ((flipped + 1) % 2 ^ 8 ∷ rest, flipped == 0xff) else (flipped ∷ rest, false)

unfoldable pub negate : List ℕ → List ℕ
unfolding negate_from
negate digest = (negate_from digest).0

-- `(shaDigest[0] & 0x80) == 0x80`
unfoldable pub is_negative : List ℕ → Bool
is_negative [] = false
is_negative (b ∷ bs) = bit_and b 0x80 == 0x80

-- `while (hashString.front() == '0')`: the front of an empty text is undefined.
unfoldable pub strip_zeros : List ℕ → Outcome (List ℕ)
strip_zeros [] = undefined
strip_zeros (c ∷ cs) = let rest = strip_zeros cs in if c == b'0' then rest else ok (c ∷ cs)

-- The text that is sent to the session server for a digest.
unfoldable pub session_hash : List ℕ → Outcome (List ℕ)
unfolding is_negative negate
session_hash digest = do
  text ← strip_zeros (hex_str (if is_negative digest then negate digest else digest))
  ok (if is_negative digest then b'-' ∷ text else text)
