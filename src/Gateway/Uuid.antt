-- ===== src/Gateway/Uuid.antt =====
-- Client Gateway/Client.cpp: the player's UUID, as text, and the one of a loopback client.
pub mod Shape
use cerios_cluster.Common.{
  ℕ, ◌+◌, List, [], ◌∷◌, ◌++◌, Bool, true, false, ◌&&◌, ◌||◌, leb, ◌==◌, if◌then◌else◌, length,
  take, drop,
}
use cerios_cluster.Gateway.Digest.{make_hex_string}

-- `[[:xdigit:]]`
unfoldable pub is_xdigit : ℕ → Bool
is_xdigit c = (leb b'0' c && leb c b'9') || (leb b'a' c && leb c b'f') || (leb b'A' c && leb c b'F')

unfoldable pub all_xdigits : List ℕ → Bool
unfolding is_xdigit
all_xdigits [] = true
all_xdigits (c ∷ cs) = is_xdigit c && all_xdigits cs

-- `std::regex_match` with groups of 8, 4, 4, 4 and 12 hexadecimal digits
unfoldable pub matches_uuid : List ℕ → Bool
matches_uuid text = length text == 32 && all_xdigits text

-- The groups of a match, joined by dashes
unfoldable pub dashed : List ℕ → List ℕ
dashed text =
    take 8 text
    ++ (b'-'
        ∷ (take 4 (drop 8 text)
            ++ (b'-'
                ∷ (take 4 (drop 12 text)
                    ++ (b'-' ∷ (take 4 (drop 16 text) ++ (b'-' ∷ take 12 (drop 20 text))))))))

-- formatUUID
unfoldable pub format_uuid : List ℕ → List ℕ
format_uuid userid =
    if length userid == 0 then userid else if matches_uuid userid then dashed userid else userid

-- The id of a client on the loopback address, from the SHA256 digest of its name. (The exception
-- that the source has for another length than 32 is left out: a digest of 32 bytes has 64 digits.)
unfoldable pub offline_id : List ℕ → List ℕ
offline_id hash_data = format_uuid (take 32 (make_hex_string hash_data true false))
