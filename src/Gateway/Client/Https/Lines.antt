-- ===== src/Gateway/Client/Https/Lines.antt =====
-- The loop of readHTTPHeader over a line of the header.
use cerios_cluster.Common.{
  ℕ, List, [], ◌∷◌, ◌++◌, append_assoc, append-nil, Bool, true, false, not, ◌&&◌, ◌||◌, ◌==◌, none,
  some, ◌≡◌, refl, sym, ap, arith, if_elim,
}
use cerios_cluster.Common.Outcome.{Outcome, ok, ◌>>=◌}
use cerios_cluster.Gateway.Client.{Turn}
use cerios_cluster.Gateway.Client.Https.{
  header_line, refused, is_blank, header_loop, after_header, read_http_header,
}
use cerios_cluster.Gateway.Client.Https.Digits.{all_digits}

-- A line has no end of a line in it.
abbrev pub one_line : List ℕ → Bool
one_line [] = true
one_line (c ∷ cs) = not (c == 10) && one_line cs

pub one_line-digits : (ds : List ℕ) → all_digits ds ≡ true → one_line ds ≡ true
one_line-digits [] d = refl
one_line-digits (c ∷ cs) d = ground (arith, d, one_line-digits cs)

pub one_line-append :
    (a b : List ℕ) → one_line a ≡ true → one_line b ≡ true → one_line (a ++ b) ≡ true
one_line-append [] b p q = q
one_line-append (c ∷ cs) b p q = ground (arith, p, one_line-append cs b)

one_line-first : (c : ℕ) (cs : List ℕ) → one_line (c ∷ cs) ≡ true → (c == 10) ≡ false
one_line-first c cs d = ground (arith, d)

pub header_loop-text :
    (text line tail : List ℕ) (pairs : List (List ℕ × List ℕ))
    → one_line text ≡ true
    → header_loop (text ++ tail) line pairs ≡ header_loop tail (line ++ text) pairs
unfolding header_loop
header_loop-text [] line tail pairs d = ap (λ l. header_loop tail l pairs) (sym (append-nil line))
header_loop-text (c ∷ cs) line tail pairs d =
    rw
      (
        one_line-first c cs d,
        header_loop,
        header_loop-text cs (line ++ (c ∷ [])) tail pairs (ground (arith, d)),
      )
      (ap (λ l. header_loop tail l pairs) (append_assoc line (c ∷ []) cs))

pub header_loop-newline :
    (line rest : List ℕ) (pairs pairs' : List (List ℕ × List ℕ))
    → is_blank line ≡ false
    → header_line line pairs ≡ ok (some pairs')
    → header_loop (10 ∷ rest) line pairs ≡ header_loop rest [] pairs'
unfolding header_loop
header_loop-newline line rest pairs pairs' b e = rw (b, e, header_loop) refl

pub read_http_header_open :
    {Cipher : Type 0} (t : Turn Cipher) (bytes : List ℕ)
    → t.client.alive ≡ true
    → read_http_header t bytes false ≡ (header_loop bytes [] [] >>= λ r. ok (after_header t r))
unfolding read_http_header
read_http_header_open {Cipher} t bytes a =
    if_elim
      (λ (u : Outcome (Turn Cipher)). u ≡ (header_loop bytes [] [] >>= λ r. ok (after_header t r)))
      (false || not t.client.alive) (λ p. absurd (ground (arith, p, a))) (λ p. refl)

pub header_loop-refused :
    (line rest : List ℕ) (pairs : List (List ℕ × List ℕ))
    → is_blank line ≡ false
    → header_line line pairs ≡ ok none
    → header_loop (10 ∷ rest) line pairs ≡ ok refused
unfolding header_loop
header_loop-refused line rest pairs b e = rw (b, e, header_loop) refl
