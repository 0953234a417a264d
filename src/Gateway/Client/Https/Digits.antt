-- ===== src/Gateway/Client/Https/Digits.antt =====
-- Digits in the text of an answer: what readHTTPHeader makes of them.
use cerios_cluster.Common.{
  ℕ, ◌+◌, ◌-◌, ◌*◌, ◌^◌, ◌<◌, List, [], ◌∷◌, ◌++◌, Bool, true, false, ◌&&◌, leb, ◌==◌, some, length,
  ◌≡◌, refl, ap, arith,
}
use cerios_cluster.Gateway.Client.Https.{
  skip_spaces, drop_last_spaces, is_space, is_digit, read_digits, skip_blanks, unsigned_long, stoul,
}

abbrev pub all_digits : List ℕ → Bool
all_digits [] = true
all_digits (c ∷ cs) = (leb b'0' c && leb c b'9') && all_digits cs

-- The number that digits behind `value` stand for
abbrev pub decimal : (value : ℕ) → List ℕ → ℕ
decimal value [] = value
decimal value (c ∷ cs) = decimal (value * 10 + (c - b'0')) cs

not_space : (c : ℕ) (cs : List ℕ) → all_digits (c ∷ cs) ≡ true → (c == b' ') ≡ false
not_space c cs d = ground (arith, d)

pub not_colon : (c : ℕ) (cs : List ℕ) → all_digits (c ∷ cs) ≡ true → (c == b':') ≡ false
not_colon c cs d = ground (arith, d)

pub all_digits-rest : (c : ℕ) (cs : List ℕ) → all_digits (c ∷ cs) ≡ true → all_digits cs ≡ true
all_digits-rest c cs d = ground (arith, d)

is_digit-first : (c : ℕ) (cs : List ℕ) → all_digits (c ∷ cs) ≡ true → is_digit c ≡ true
unfolding is_digit
is_digit-first c cs d = ground (arith, d)

pub read_digits_lem :
    (ds : List ℕ) (value count stop : ℕ) (rest : List ℕ)
    → all_digits ds ≡ true
    → is_digit stop ≡ false
    → read_digits value count (ds ++ (stop ∷ rest))
      ≡ (decimal value ds, count + length ds, stop ∷ rest)
unfolding read_digits
read_digits_lem [] value count stop rest d s =
    rw s (ap (λ n. (value, n, stop ∷ rest)) (omega arith))
read_digits_lem (c ∷ cs) value count stop rest d s =
    rw
      (
        is_digit-first c cs d,
        read_digits_lem cs (value * 10 + (c - b'0')) (count + 1) stop rest (all_digits-rest c cs d)
            s,
      )
      (ap (λ n. (decimal (value * 10 + (c - b'0')) cs, n, stop ∷ rest)) (omega arith))

pub drop_last_spaces-digits :
    (ds : List ℕ) → all_digits ds ≡ true → drop_last_spaces (ds ++ (13 ∷ [])) ≡ ds ++ (13 ∷ [])
unfolding drop_last_spaces
drop_last_spaces-digits [] d = refl
drop_last_spaces-digits (c ∷ cs) d =
    rw (not_space c cs d, drop_last_spaces-digits cs (all_digits-rest c cs d)) refl

pub skip_spaces-digits :
    (ds : List ℕ) → all_digits ds ≡ true → skip_spaces (ds ++ (13 ∷ [])) ≡ ds ++ (13 ∷ [])
unfolding skip_spaces
skip_spaces-digits [] d = refl
skip_spaces-digits (c ∷ cs) d = rw (not_space c cs d) refl

skip_blanks-digits :
    (c : ℕ) (cs rest : List ℕ)
    → all_digits (c ∷ cs) ≡ true
    → skip_blanks (c ∷ (cs ++ rest)) ≡ c ∷ (cs ++ rest)
unfolding skip_blanks is_space
skip_blanks-digits c cs rest d = ground (arith, d)

unsigned_long-digits :
    (ds rest : List ℕ)
    → all_digits ds ≡ true
    → 0 < length ds
    → decimal 0 ds < 2 ^ 64
    → unsigned_long false (ds ++ (13 ∷ rest)) ≡ some (decimal 0 ds)
unfolding unsigned_long is_digit
unsigned_long-digits ds rest d some_digit small =
    rw (read_digits_lem ds 0 0 13 rest d refl) (ground (arith, some_digit, small))

pub stoul-digits :
    (ds rest : List ℕ)
    → all_digits ds ≡ true
    → 0 < length ds
    → decimal 0 ds < 2 ^ 64
    → stoul (ds ++ (13 ∷ rest)) ≡ some (decimal 0 ds)
unfolding stoul
stoul-digits [] rest d some_digit small = absurd (omega arith)
stoul-digits (c ∷ cs) rest d some_digit small =
    rw (skip_blanks-digits c cs (13 ∷ rest) d, stoul)
      (ground (arith, d, unsigned_long-digits (c ∷ cs) rest d some_digit small))
