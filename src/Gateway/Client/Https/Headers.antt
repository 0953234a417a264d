-- ===== src/Gateway/Client/Https/Headers.antt =====
-- readHTTPHeader over the headers of an answer: the loop over their lines, and the map of their pairs.
use cerios_cluster.Common.{
  ℕ, List, [], ◌∷◌, ◌++◌, append_assoc, Bool, true, false, not, ◌&&◌, ◌==◌, some, All, ◌≡◌, refl,
  ap, ◌∙◌, arith, Bool-cases, inl, inr,
}
use cerios_cluster.Common.Outcome.{ok}
use cerios_cluster.Gateway.Client.Login.{same_bytes}
use cerios_cluster.Gateway.Client.Login.States.{same_bytes_refl, same_bytes_eq}
use cerios_cluster.Gateway.Client.Https.{
  trim, split_colon, set_pair, get_pair, header_line, is_blank, header_loop,
}
use cerios_cluster.Gateway.Client.Https.Lines.{
  one_line, one_line-append, header_loop-text, header_loop-newline,
}

abbrev pub no_colon : List ℕ → Bool
no_colon [] = true
no_colon (c ∷ cs) = not (c == b':') && no_colon cs

-- A key and a value that can stand in a line
abbrev pub IsHeader : List ℕ × List ℕ → Type 0
IsHeader (key, value) = (no_colon key ≡ true) × (one_line key ≡ true) × (one_line value ≡ true)

abbrev pub header_text : List ℕ × List ℕ → List ℕ
header_text (key, value) = key ++ (b':' ∷ (value ++ (13 ∷ [])))

abbrev pub headers_text : List (List ℕ × List ℕ) → List ℕ
headers_text [] = []
headers_text (h ∷ hs) = header_text h ++ (10 ∷ headers_text hs)

-- The pairs behind the headers
abbrev pub pairs_with : List (List ℕ × List ℕ) → List (List ℕ × List ℕ) → List (List ℕ × List ℕ)
pairs_with [] pairs = pairs
pairs_with ((key, value) ∷ hs) pairs =
    pairs_with hs (set_pair (trim key) (trim (value ++ (13 ∷ []))) pairs)

split_colon-key :
    (key value : List ℕ)
    → no_colon key ≡ true
    → split_colon (key ++ (b':' ∷ value)) ≡ some (key, value)
unfolding split_colon
split_colon-key [] value n = refl
split_colon-key (c ∷ cs) value n = elim (Bool-cases (c == b':')) [
  | inl colon ↦ absurd (ground (arith, n, colon))
  | inr other ↦ rw (other, split_colon, split_colon-key cs value (ground (arith, n))) refl
]

header_line-header :
    (key value : List ℕ) (pairs : List (List ℕ × List ℕ))
    → no_colon key ≡ true
    → header_line (header_text (key, value)) pairs
      ≡ ok (some (set_pair (trim key) (trim (value ++ (13 ∷ []))) pairs))
unfolding header_line
header_line-header key value pairs n =
    rw (split_colon-key key (value ++ (13 ∷ [])) n, header_line) refl

is_blank-header : (key value : List ℕ) → is_blank (header_text (key, value)) ≡ false
unfolding same_bytes
is_blank-header [] value = refl
is_blank-header (c ∷ []) value = ground arith
is_blank-header (c ∷ (d ∷ cs)) value = ground arith

one_line-header : (h : List ℕ × List ℕ) → IsHeader h → one_line (header_text h) ≡ true
one_line-header (key, value) (n, k, v) =
    one_line-append key (b':' ∷ (value ++ (13 ∷ []))) k (one_line-append value (13 ∷ []) v refl)

pub header_loop-headers :
    (hs : List (List ℕ × List ℕ)) (tail : List ℕ) (pairs : List (List ℕ × List ℕ))
    → All IsHeader hs
    → header_loop (headers_text hs ++ tail) [] pairs ≡ header_loop tail [] (pairs_with hs pairs)
header_loop-headers [] tail pairs a = refl
header_loop-headers ((key, value) ∷ hs) tail pairs a =
    let text = header_text (key, value) in
    let rest = headers_text hs ++ tail in
    let pairs' = set_pair (trim key) (trim (value ++ (13 ∷ []))) pairs in
    ap (λ l. header_loop l [] pairs) (append_assoc text (10 ∷ headers_text hs) tail)
    ∙ header_loop-text text [] (10 ∷ rest) pairs (one_line-header (key, value) a.0)
    ∙ header_loop-newline text rest pairs pairs' (is_blank-header key value)
        (header_line-header key value pairs a.0.0)
    ∙ header_loop-headers hs tail pairs' a.1

pub get_pair-set_pair :
    (key value : List ℕ) (pairs : List (List ℕ × List ℕ))
    → get_pair key (set_pair key value pairs) ≡ value
unfolding get_pair set_pair
get_pair-set_pair key value [] = rw (same_bytes_refl key) refl
get_pair-set_pair key value ((k, v) ∷ rest) = elim (Bool-cases (same_bytes k key)) [
  | inl s ↦ rw s (rw (same_bytes_refl key) refl)
  | inr s ↦ rw s (rw s (get_pair-set_pair key value rest))
]

get_pair-set_pair_other :
    (wanted key value : List ℕ) (pairs : List (List ℕ × List ℕ))
    → same_bytes key wanted ≡ false
    → get_pair wanted (set_pair key value pairs) ≡ get_pair wanted pairs
unfolding get_pair set_pair
get_pair-set_pair_other wanted key value [] n = rw n refl
get_pair-set_pair_other wanted key value ((k, v) ∷ rest) n = elim (Bool-cases (same_bytes k key)) [
  | inl s ↦
      rw (s, get_pair) (rw (n, ap (λ x. same_bytes x wanted) (same_bytes_eq k key s) ∙ n) refl)
  | inr s ↦ elim (Bool-cases (same_bytes k wanted)) [
    | inl w ↦ rw s (rw w refl)
    | inr w ↦ rw s (rw w (get_pair-set_pair_other wanted key value rest n))
  ]
]

-- Headers of other keys
abbrev pub IsOther : (wanted : List ℕ) → List ℕ × List ℕ → Type 0
IsOther wanted (key, value) = same_bytes (trim key) wanted ≡ false

pub get_pair-pairs_with :
    (wanted : List ℕ) (hs pairs : List (List ℕ × List ℕ))
    → All (IsOther wanted) hs
    → get_pair wanted (pairs_with hs pairs) ≡ get_pair wanted pairs
get_pair-pairs_with wanted [] pairs a = refl
get_pair-pairs_with wanted ((key, value) ∷ hs) pairs a =
    get_pair-pairs_with wanted hs (set_pair (trim key) (trim (value ++ (13 ∷ []))) pairs) a.1
    ∙ get_pair-set_pair_other wanted (trim key) (trim (value ++ (13 ∷ []))) pairs a.0
