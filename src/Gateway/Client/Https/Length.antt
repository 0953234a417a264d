-- ===== src/Gateway/Client/Https/Length.antt =====
-- readHTTPHeader on an answer of 200 with the length of its body.
use cerios_cluster.Common.{
  ℕ, ◌^◌, ◌<◌, List, [], ◌∷◌, ◌++◌, true, false, none, some, length, All, ◌≡◌, refl, ap, ◌∙◌,
}
use cerios_cluster.Common.Text.{codes}
use cerios_cluster.Common.Outcome.{ok}
use cerios_cluster.Gateway.Client.{Turn, https_read_body, emit}
use cerios_cluster.Gateway.Client.Auth.{crlf}
use cerios_cluster.Gateway.Client.Login.{same_bytes}
use cerios_cluster.Gateway.Client.Https.{
  skip_spaces, drop_last_spaces, trim, split_colon, has_reason, set_pair, get_pair, status_line,
  pairs_read, header_loop, after_header, read_http_header,
}
use cerios_cluster.Gateway.Client.Https.Digits.{
  all_digits, decimal, drop_last_spaces-digits, skip_spaces-digits, stoul-digits,
}
use cerios_cluster.Gateway.Client.Https.Lines.{
  one_line, one_line-digits, header_loop-text, header_loop-newline, read_http_header_open,
}
use cerios_cluster.Gateway.Client.Https.Status.{status_head, one_line-status, header_line-status}
use cerios_cluster.Gateway.Client.Https.Headers.{
  IsHeader, IsOther, headers_text, pairs_with, header_loop-headers, get_pair-set_pair,
  get_pair-pairs_with,
}

abbrev pub length_key : List ℕ
length_key = codes "Content-Length"

-- The header with the length
abbrev pub length_header : (ds : List ℕ) → List ℕ × List ℕ
length_header ds = (length_key, b' ' ∷ ds)

-- An answer: the status line, the headers, of which one has the length, an empty line, and the part of
-- the body that came with them
abbrev pub answer :
    (code reason : List ℕ)
    → (before : List (List ℕ × List ℕ)) → (ds : List ℕ) → (after : List (List ℕ × List ℕ))
    → (held : List ℕ) → List ℕ
answer code reason before ds after held =
    status_head code reason
    ++ (10 ∷ (headers_text before ++ (headers_text (length_header ds ∷ after) ++ (crlf ++ held))))

-- The pairs that it leaves
abbrev pairs_of :
    (before : List (List ℕ × List ℕ))
    → (ds : List ℕ) → (after : List (List ℕ × List ℕ)) → List (List ℕ × List ℕ)
pairs_of before ds after = pairs_with (length_header ds ∷ after) (pairs_with before [])

header_loop-status_ok :
    (code reason rest : List ℕ)
    → all_digits code ≡ true
    → 0 < length code
    → decimal 0 code ≡ 200
    → one_line reason ≡ true
    → split_colon reason ≡ none
    → has_reason (b' ' ∷ reason) ≡ true
    → header_loop (status_head code reason ++ (10 ∷ rest)) [] [] ≡ header_loop rest [] []
unfolding same_bytes status_line
header_loop-status_ok code reason rest d some_digit e l n r =
    header_loop-text (status_head code reason) [] (10 ∷ rest) [] (one_line-status code reason d l)
    ∙ header_loop-newline (status_head code reason) rest [] [] refl (
        header_line-status code reason [] d some_digit n r
        ∙ ap (λ value. status_line (some value) []) e)

header_loop-end :
    (held : List ℕ) (pairs : List (List ℕ × List ℕ))
    → header_loop (crlf ++ held) [] pairs ≡ ok (pairs_read pairs held)
unfolding header_loop same_bytes
header_loop-end held pairs = refl

length_header-IsHeader : (ds : List ℕ) → all_digits ds ≡ true → IsHeader (length_header ds)
length_header-IsHeader ds d = (refl, refl, one_line-digits ds d)

header_loop-answer :
    (code reason : List ℕ) (before : List (List ℕ × List ℕ)) (ds : List ℕ)
    (after : List (List ℕ × List ℕ)) (held : List ℕ)
    → all_digits code ≡ true
    → 0 < length code
    → decimal 0 code ≡ 200
    → one_line reason ≡ true
    → split_colon reason ≡ none
    → has_reason (b' ' ∷ reason) ≡ true
    → All IsHeader before
    → All IsHeader after
    → all_digits ds ≡ true
    → header_loop (answer code reason before ds after held) [] []
      ≡ ok (pairs_read (pairs_of before ds after) held)
header_loop-answer code reason before ds after held dc sc ec l n r hb ha d =
    let lines = headers_text (length_header ds ∷ after) ++ (crlf ++ held) in
    header_loop-status_ok code reason (headers_text before ++ lines) dc sc ec l n r
    ∙ header_loop-headers before lines [] hb
    ∙ header_loop-headers (length_header ds ∷ after) (crlf ++ held) (pairs_with before [])
        (length_header-IsHeader ds d, ha)
    ∙ header_loop-end held (pairs_of before ds after)

trim-length :
    (ds : List ℕ) → all_digits ds ≡ true → trim (b' ' ∷ (ds ++ (13 ∷ []))) ≡ ds ++ (13 ∷ [])
unfolding trim skip_spaces
trim-length ds d = rw (skip_spaces-digits ds d, drop_last_spaces-digits ds d) refl

trim-length_key : trim length_key ≡ length_key
unfolding trim skip_spaces drop_last_spaces
trim-length_key = refl

get_pair-pairs_of :
    (before : List (List ℕ × List ℕ)) (ds : List ℕ) (after : List (List ℕ × List ℕ))
    → all_digits ds ≡ true
    → All (IsOther length_key) after
    → get_pair length_key (pairs_of before ds after) ≡ ds ++ (13 ∷ [])
get_pair-pairs_of before ds after d o =
    let pairs = pairs_with before [] in
    let value = trim (b' ' ∷ (ds ++ (13 ∷ []))) in
    get_pair-pairs_with length_key after (set_pair (trim length_key) value pairs) o
    ∙ ap (λ key. get_pair length_key (set_pair key value pairs)) trim-length_key
    ∙ get_pair-set_pair length_key value pairs
    ∙ trim-length ds d

after_header-length :
    {Cipher : Type 0} (t : Turn Cipher) (ds held : List ℕ) (pairs : List (List ℕ × List ℕ))
    → get_pair length_key pairs ≡ ds ++ (13 ∷ [])
    → all_digits ds ≡ true
    → 0 < length ds
    → decimal 0 ds < 2 ^ 64
    → after_header t (pairs_read pairs held) ≡ emit t (https_read_body (decimal 0 ds) held)
unfolding after_header
after_header-length t ds held pairs e d some_digit small =
    rw (e, stoul-digits ds [] d some_digit small, after_header) refl

-- An answer with the status 200, any reason that can stand in its line, any other headers that can
-- stand in lines, and a `Content-Length`, so spelled, of a space and a decimal number, which no
-- later header replaces, makes an open client read a body of that length, behind what of it came
-- with the header. The status line starts with HTTP/1.1, and its reason is one line without a colon
-- that starts with a letter or a space. The length has a digit at least, and is below 2 ^ 64.
pub read_http_header_ok :
    {Cipher : Type 0} (t : Turn Cipher) (code reason : List ℕ) (before : List (List ℕ × List ℕ))
    (ds : List ℕ) (after : List (List ℕ × List ℕ)) (held : List ℕ)
    → t.client.alive ≡ true
    → all_digits code ≡ true
    → 0 < length code
    → decimal 0 code ≡ 200
    → one_line reason ≡ true
    → split_colon reason ≡ none
    → has_reason (b' ' ∷ reason) ≡ true
    → All IsHeader before
    → All IsHeader after
    → All (IsOther length_key) after
    → all_digits ds ≡ true
    → 0 < length ds
    → decimal 0 ds < 2 ^ 64
    → read_http_header t (answer code reason before ds after held) false
      ≡ ok (emit t (https_read_body (decimal 0 ds) held))
read_http_header_ok {Cipher} t code reason before ds after held a dc sc ec l n r hb ha oa d
      some_digit small =
    rw
      (
        read_http_header_open t (answer code reason before ds after held) a,
        header_loop-answer code reason before ds after held dc sc ec l n r hb ha d,
      )
      (ap (λ (u : Turn Cipher). ok u)
        (after_header-length t ds held (pairs_of before ds after)
          (get_pair-pairs_of before ds after d oa) d some_digit small))
