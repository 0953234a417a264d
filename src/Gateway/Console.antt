-- ===== src/Gateway/Console.antt =====
-- Client Gateway/LoginServer.cpp: the comparison of console lines, and the loop that reads them.
use cerios_cluster.Common.{
  ℕ, ◌+◌, ◌<◌, List, [], ◌∷◌, Bool, true, false, ◌&&◌, leb, ◌==◌, if◌then◌else◌, length, Option,
  none, some,
}
pub mod Accepts

-- `std::tolower` in the C locale
unfoldable pub tolower : ℕ → ℕ
tolower c = if leb b'A' c && leb c b'Z' then c + 32 else c

unfoldable pub string_compare_pred : ℕ → ℕ → Bool
unfolding tolower
string_compare_pred a b = tolower a == tolower b

-- `std::lexicographical_compare` with a comparison: the first pair that it orders decides.
unfoldable pub lexicographical_compare : List ℕ → List ℕ → (ℕ → ℕ → Bool) → Bool
lexicographical_compare [] [] comp = false
lexicographical_compare [] (b ∷ bs) comp = true
lexicographical_compare (a ∷ as') [] comp = false
lexicographical_compare (a ∷ as') (b ∷ bs) comp =
    let rest = lexicographical_compare as' bs comp in
    if comp a b then true else if comp b a then false else rest

unfoldable pub string_compare : List ℕ → List ℕ → Bool
unfolding string_compare_pred lexicographical_compare
string_compare a b = lexicographical_compare a b string_compare_pred

-- "stop"
abbrev pub stop : List ℕ
stop = b's' ∷ b't' ∷ b'o' ∷ b'p' ∷ []

-- The loop of `listen` over the lines that it will be given: how many are read until it returns,
-- or none if it reads them all.
unfoldable pub lines_until_stop : List (List ℕ) → Option ℕ
unfolding string_compare
lines_until_stop [] = none
lines_until_stop (line ∷ rest) =
    let more = lines_until_stop rest in
    if string_compare line stop then some 1 else elim more [ none ↦ none | some n ↦ some (n + 1) ]
