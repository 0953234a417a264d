-- ===== src/Gateway/Client/Https/Status.antt =====
-- readHTTPHeader on an answer of another status.
use cerios_cluster.Common.{
  ℕ, ◌^◌, ◌<◌, List, [], ◌∷◌, ◌++◌, true, false, none, some, length, ◌≡◌, refl, ap, arith,
}
use cerios_cluster.Common.Text.{codes}
use cerios_cluster.Common.Outcome.{ok}
use cerios_cluster.Gateway.Client.{Turn, socket_cancel, emit}
use cerios_cluster.Gateway.Client.Login.{same_bytes}
use cerios_cluster.Gateway.Client.Https.{
  split_colon, starts_with, contains, is_space, is_digit, has_reason, match_code, search_code,
  status_line, plain_line, header_line, refused, header_loop, after_header, read_http_header,
}
use cerios_cluster.Gateway.Client.Https.Digits.{
  all_digits, decimal, not_colon, all_digits-rest, read_digits_lem,
}
use cerios_cluster.Gateway.Client.Https.Lines.{
  one_line, one_line-digits, one_line-append, header_loop-text, read_http_header_open,
  header_loop-refused,
}

-- A status line with a code of another number
abbrev pub status_head : (ds reason : List ℕ) → List ℕ
status_head ds reason = codes "HTTP/1.1 " ++ (ds ++ (b' ' ∷ reason))

split_colon-digits :
    (ds tail : List ℕ)
    → all_digits ds ≡ true
    → split_colon tail ≡ none
    → split_colon (ds ++ tail) ≡ none
unfolding split_colon
split_colon-digits [] tail d n = n
split_colon-digits (c ∷ cs) tail d n =
    rw (not_colon c cs d, split_colon, split_colon-digits cs tail (all_digits-rest c cs d) n) refl

split_colon-space : (text : List ℕ) → split_colon text ≡ none → split_colon (b' ' ∷ text) ≡ none
unfolding split_colon
split_colon-space text n = rw n refl

match_code-digits :
    (ds reason : List ℕ)
    → all_digits ds ≡ true
    → 0 < length ds
    → has_reason (b' ' ∷ reason) ≡ true
    → match_code (b' ' ∷ (ds ++ (b' ' ∷ reason))) ≡ some (decimal 0 ds)
unfolding match_code is_digit
match_code-digits ds reason d some_digit r =
    rw (read_digits_lem ds 0 0 b' ' reason d refl) (ground (arith, some_digit, r))

split_colon-status :
    (ds reason : List ℕ)
    → all_digits ds ≡ true
    → split_colon reason ≡ none
    → split_colon (status_head ds reason) ≡ none
unfolding split_colon
split_colon-status ds reason d n =
    rw (split_colon-digits ds (b' ' ∷ reason) d (split_colon-space reason n), split_colon) refl

search_code-status :
    (ds reason : List ℕ)
    → all_digits ds ≡ true
    → 0 < length ds
    → has_reason (b' ' ∷ reason) ≡ true
    → search_code false (status_head ds reason) ≡ some (decimal 0 ds)
unfolding search_code is_space
search_code-status ds reason d some_digit r =
    rw (match_code-digits ds reason d some_digit r, search_code) refl

plain_line-status :
    (ds reason : List ℕ) (pairs : List (List ℕ × List ℕ))
    → all_digits ds ≡ true
    → 0 < length ds
    → has_reason (b' ' ∷ reason) ≡ true
    → plain_line (status_head ds reason) pairs ≡ status_line (some (decimal 0 ds)) pairs
unfolding plain_line contains starts_with
plain_line-status ds reason pairs d some_digit r =
    ap (λ code. status_line code pairs) (search_code-status ds reason d some_digit r)

pub header_line-status :
    (ds reason : List ℕ) (pairs : List (List ℕ × List ℕ))
    → all_digits ds ≡ true
    → 0 < length ds
    → split_colon reason ≡ none
    → has_reason (b' ' ∷ reason) ≡ true
    → header_line (status_head ds reason) pairs ≡ status_line (some (decimal 0 ds)) pairs
unfolding header_line
header_line-status ds reason pairs d some_digit n r =
    rw (split_colon-status ds reason d n, header_line)
      (plain_line-status ds reason pairs d some_digit r)

pub one_line-status :
    (ds reason : List ℕ)
    → all_digits ds ≡ true
    → one_line reason ≡ true
    → one_line (status_head ds reason) ≡ true
one_line-status ds reason d l = one_line-append ds (b' ' ∷ reason) (one_line-digits ds d) l

status_line-refused :
    (value : ℕ) (pairs : List (List ℕ × List ℕ))
    → value < 2 ^ 31
    → (value ≡ 200 → ⊥)
    → status_line (some value) pairs ≡ ok none
unfolding status_line
status_line-refused value pairs small other = ground (arith, small, other)

header_loop-status :
    (ds reason rest : List ℕ)
    → all_digits ds ≡ true
    → 0 < length ds
    → one_line reason ≡ true
    → split_colon reason ≡ none
    → has_reason (b' ' ∷ reason) ≡ true
    → decimal 0 ds < 2 ^ 31
    → (decimal 0 ds ≡ 200 → ⊥)
    → header_loop (status_head ds reason ++ (10 ∷ rest)) [] [] ≡ ok refused
unfolding same_bytes
header_loop-status ds reason rest d some_digit l n r small other =
    rw (header_loop-text (status_head ds reason) [] (10 ∷ rest) [] (one_line-status ds reason d l))
      (header_loop-refused (status_head ds reason) rest [] refl (
        rw (header_line-status ds reason [] d some_digit n r)
          (status_line-refused (decimal 0 ds) [] small other)))

-- An answer with another status number, below 2 ^ 31, makes an open client cancel its socket, whatever
-- follows the status line. The reason behind the number is one line without a colon, and starts with
-- a letter or a space.
pub read_http_header_status :
    {Cipher : Type 0} (t : Turn Cipher) (ds reason rest : List ℕ)
    → t.client.alive ≡ true
    → all_digits ds ≡ true
    → 0 < length ds
    → one_line reason ≡ true
    → split_colon reason ≡ none
    → has_reason (b' ' ∷ reason) ≡ true
    → decimal 0 ds < 2 ^ 31
    → (decimal 0 ds ≡ 200 → ⊥)
    → read_http_header t (status_head ds reason ++ (10 ∷ rest)) false ≡ ok (emit t socket_cancel)
unfolding after_header
read_http_header_status t ds reason rest a d some_digit l n r small other =
    rw
      (
        read_http_header_open t (status_head ds reason ++ (10 ∷ rest)) a,
        header_loop-status ds reason rest d some_digit l n r small other,
      )
      refl
