-- ===== src/Gateway/Client/Https.antt =====
-- The callbacks of Client Gateway/Client.cpp between the question to the session server and its answer:
-- connectedToMojang, sslHandshakeComplete, sendHTTPRequestDone and readHTTPHeader.
pub mod Digits
pub mod Lines
pub mod Headers
pub mod Length
pub mod Status
use cerios_cluster.Common.{
  ℕ, ◌+◌, ◌-◌, ◌*◌, ◌%◌, ◌^◌, List, [], ◌∷◌, ◌++◌, Bool, true, false, not, ◌&&◌, ◌||◌, ltb, leb,
  ◌==◌, Option, none, some, if◌then◌else◌,
}
use cerios_cluster.Common.Text.{codes}
use cerios_cluster.Common.Outcome.{Outcome, ok, throws, out_of_range, ◌>>=◌}
use cerios_cluster.Gateway.Client.{
  Client, Turn, socket_cancel, https_handshake, https_write, https_read_header, https_read_body,
  emit,
}
use cerios_cluster.Gateway.Client.Login.{same_bytes}

-- The lambda `trim`
unfoldable pub skip_spaces : List ℕ → List ℕ
skip_spaces [] = []
skip_spaces (c ∷ cs) = let rest = skip_spaces cs in if c == b' ' then rest else c ∷ cs

abbrev pub is_empty : List ℕ → Bool
is_empty [] = true
is_empty (c ∷ cs) = false

unfoldable pub drop_last_spaces : List ℕ → List ℕ
drop_last_spaces [] = []
drop_last_spaces (c ∷ cs) =
    let rest = drop_last_spaces cs in if c == b' ' && is_empty rest then [] else c ∷ rest

unfoldable pub trim : List ℕ → List ℕ
unfolding skip_spaces drop_last_spaces
trim str = drop_last_spaces (skip_spaces str)

-- `line.find(':', 0)`, with the text before it and the text behind it
unfoldable pub split_colon : List ℕ → Option (List ℕ × List ℕ)
split_colon [] = none
split_colon (c ∷ cs) = elim (c == b':') [
  | true ↦ some ([], cs)
  | false ↦ elim (split_colon cs) [ none ↦ none | some (key, value) ↦ some (c ∷ key, value) ]
]

unfoldable pub starts_with : (prefix text : List ℕ) → Bool
starts_with [] text = true
starts_with (p ∷ ps) [] = false
starts_with (p ∷ ps) (c ∷ cs) = p == c && starts_with ps cs

-- `line.find(word) != npos`
unfoldable pub contains : (word text : List ℕ) → Bool
unfolding starts_with
contains word [] = starts_with word []
contains word (c ∷ cs) = starts_with word (c ∷ cs) || contains word cs

-- What `\s` matches
unfoldable pub is_space : ℕ → Bool
is_space c = c == b' ' || (leb 9 c && leb c 13)

unfoldable pub is_digit : ℕ → Bool
is_digit c = leb b'0' c && leb c b'9'

-- The digits in front, as a number and how many they are, and the text behind them
unfoldable pub read_digits : (value count : ℕ) → List ℕ → ℕ × ℕ × List ℕ
unfolding is_digit
read_digits value count [] = (value, count, [])
read_digits value count (c ∷ cs) =
    let rest = read_digits (value * 10 + (c - b'0')) (count + 1) cs in
    if is_digit c then rest else (value, count, c ∷ cs)

-- ` ([\S| ]+)`: a space, and a letter of the class behind it
unfoldable pub has_reason : List ℕ → Bool
unfolding is_space
has_reason [] = false
has_reason (c ∷ []) = false
has_reason (c ∷ (d ∷ ds)) = c == b' ' && (not (is_space d) || d == b' ')

-- ` (\d+) ([\S| ]+)` behind the word of a match
unfoldable pub match_code : List ℕ → Option ℕ
unfolding read_digits has_reason
match_code [] = none
match_code (c ∷ cs) =
    let (value, count, rest) = read_digits 0 0 cs in
    if c == b' ' && (ltb 0 count && has_reason rest) then some value else none

-- The regular expression `(\S+) (\d+) ([\S| ]+)`: each place that is not a space may stand in the word
-- of a match, which ends at the first space. `word` says that the place before stands in one.
unfoldable pub search_code : (word : Bool) → List ℕ → Option ℕ
unfolding match_code
search_code word [] = none
search_code word (c ∷ cs) =
    let next = search_code (not (is_space c)) cs in
    elim (if word && is_space c then match_code (c ∷ cs) else none) [
      | some value ↦ some value
      | none ↦ next
    ]

-- `httpKVPairs[key] = value`
unfoldable pub set_pair : (key value : List ℕ) → List (List ℕ × List ℕ) → List (List ℕ × List ℕ)
set_pair key value [] = (key, value) ∷ []
set_pair key value ((k, v) ∷ rest) =
    let more = set_pair key value rest in
    if same_bytes k key then (key, value) ∷ rest else (k, v) ∷ more

-- `httpKVPairs[key]`, which is empty for a key that is not there
unfoldable pub get_pair : (key : List ℕ) → List (List ℕ × List ℕ) → List ℕ
get_pair key [] = []
get_pair key ((k, v) ∷ rest) = let more = get_pair key rest in if same_bytes k key then v else more

-- A line of the header: the pairs after it, or none where the handler gives up.
unfoldable pub status_line :
    Option ℕ → List (List ℕ × List ℕ) → Outcome (Option (List (List ℕ × List ℕ)))
status_line none pairs = ok (some pairs)
status_line (some value) pairs =
    if leb (2 ^ 31) value
    then throws out_of_range
    else if value == 200
    then ok (some pairs)
    else ok none

unfoldable pub plain_line :
    List ℕ → List (List ℕ × List ℕ) → Outcome (Option (List (List ℕ × List ℕ)))
unfolding status_line
plain_line line pairs =
    if contains (codes "HTTP") line
    then status_line (search_code false line) pairs
    else ok (some pairs)

unfoldable pub header_line :
    List ℕ → List (List ℕ × List ℕ) → Outcome (Option (List (List ℕ × List ℕ)))
unfolding plain_line
header_line line pairs = elim (split_colon line) [
  | some (key, value) ↦ ok (some (set_pair (trim key) (trim value) pairs))
  | none ↦ plain_line line pairs
]

-- What the loop over the lines leaves: the pairs and the data behind the header, or a refusal.
pub data HeaderRead : Type 0 where
  pairs_read : List (List ℕ × List ℕ) → (left : List ℕ) → HeaderRead
  refused : HeaderRead

-- `line != "\r"`, negated
abbrev pub is_blank : List ℕ → Bool
is_blank line = same_bytes line (13 ∷ [])

-- The loop. `line` is what of the current line has been read; at the end of the data the last line
-- counts if there is something in it.
unfoldable pub header_loop : List ℕ → (line : List ℕ) → List (List ℕ × List ℕ) → Outcome HeaderRead
header_loop [] line pairs =
    if is_empty line || is_blank line
    then ok (pairs_read pairs [])
    else (header_line line pairs >>= λ r.
        ok (elim r [ none ↦ refused | some pairs' ↦ pairs_read pairs' [] ]))
header_loop (c ∷ cs) line pairs = elim (c == 10) [
  | false ↦ header_loop cs (line ++ (c ∷ [])) pairs
  | true ↦ elim (is_blank line) [
    | true ↦ ok (pairs_read pairs cs)
    | false ↦ header_line line pairs >>= λ r. elim r [
      | none ↦ ok refused
      | some pairs' ↦ header_loop cs [] pairs'
    ]
  ]
]

unfoldable pub skip_blanks : List ℕ → List ℕ
unfolding is_space
skip_blanks [] = []
skip_blanks (c ∷ cs) = let rest = skip_blanks cs in if is_space c then rest else c ∷ cs

-- Digits that make an unsigned long, negated if there is a minus in front of them
unfoldable pub unsigned_long : (negative : Bool) → List ℕ → Option ℕ
unfolding read_digits
unsigned_long negative text =
    let (value, count, rest) = read_digits 0 0 text in
    if count == 0 || leb (2 ^ 64) value
    then none
    else some (if negative then (2 ^ 64 - value) % 2 ^ 64 else value)

-- `std::stoul`; none is an exception.
unfoldable pub stoul : List ℕ → Option ℕ
unfolding unsigned_long skip_blanks
stoul text = elim (skip_blanks text) [
  | [] ↦ none
  | c ∷ cs ↦
      if c == b'-'
      then unsigned_long true cs
      else if c == b'+'
      then unsigned_long false cs
      else unsigned_long false (c ∷ cs)
]

module _ {Cipher : Type 0} where
  -- connectedToMojang goes on whatever the error is.
  unfoldable pub connected_to_mojang :
      Turn Cipher → (request : List ℕ) → (error : Bool) → Turn Cipher
  connected_to_mojang t request error = emit t (https_handshake request)

  unfoldable pub ssl_handshake_complete :
      Turn Cipher → (request : List ℕ) → (error : Bool) → Turn Cipher
  ssl_handshake_complete t request error = if error then t else emit t (https_write request)

  unfoldable pub send_http_request_done : Turn Cipher → (error : Bool) → Turn Cipher
  send_http_request_done t error = if error then t else emit t https_read_header

  -- The `try` behind the loop: where the length cannot be read, nothing more happens.
  unfoldable pub after_header : Turn Cipher → HeaderRead → Turn Cipher
  after_header t refused = emit t socket_cancel
  after_header t (pairs_read pairs left) = elim (stoul (get_pair (codes "Content-Length") pairs)) [
    | none ↦ t
    | some content_length ↦ emit t (https_read_body content_length left)
  ]

  unfoldable pub read_http_header : Turn Cipher → List ℕ → (error : Bool) → Outcome (Turn Cipher)
  unfolding after_header
  read_http_header t bytes error =
      if error || not t.client.alive
      then ok t
      else (header_loop bytes [] [] >>= λ r. ok (after_header t r))
