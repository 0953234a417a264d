-- ===== src/Gateway/Console/Accepts.antt =====
-- Which lines stop the server (Client Gateway/LoginServer.cpp).
use cerios_cluster.Common.{
  ℕ, ◌<◌, List, [], ◌∷◌, true, ◌==◌, length, ◌≡◌, ◌⊎◌, inl, inr, ◌↔◌, refl, arith, Bool-cases,
}
use cerios_cluster.Gateway.Console.{
  tolower, string_compare_pred, lexicographical_compare, string_compare,
}

-- The two texts have the same letter somewhere, at one position and in either case.
pub data Agrees : List ℕ → List ℕ → Type 0 where
  here : {a b : ℕ} {as' bs : List ℕ} → tolower a ≡ tolower b → Agrees (a ∷ as') (b ∷ bs)
  there : {a b : ℕ} {as' bs : List ℕ} → Agrees as' bs → Agrees (a ∷ as') (b ∷ bs)

compare-Agrees : (a b : List ℕ) → string_compare a b ≡ true → Agrees a b ⊎ (length a < length b)
unfolding string_compare lexicographical_compare string_compare_pred
compare-Agrees [] [] e = cc
compare-Agrees [] (b ∷ bs) e = inr (omega arith)
compare-Agrees (a ∷ as') [] e = cc
compare-Agrees (a ∷ as') (b ∷ bs) e = elim (Bool-cases (tolower a == tolower b)) [
  | inl same ↦ inl (here (ground arith))
  | inr other ↦ elim (compare-Agrees as' bs (ground (arith, other))) [
    | inl found ↦ inl (there found)
    | inr short ↦ inr (omega arith)
  ]
]

Agrees-compare : {a b : List ℕ} → Agrees a b → string_compare a b ≡ true
unfolding string_compare lexicographical_compare string_compare_pred
Agrees-compare (here e) = ground (arith, e)
Agrees-compare (there s) = ground (arith, Agrees-compare s)

shorter-compare : (a b : List ℕ) → length a < length b → string_compare a b ≡ true
unfolding string_compare lexicographical_compare string_compare_pred
shorter-compare [] [] h = absurd (omega arith)
shorter-compare [] (b ∷ bs) h = refl
shorter-compare (a ∷ as') [] h = absurd (omega arith)
shorter-compare (a ∷ as') (b ∷ bs) h = ground (arith, shorter-compare as' bs)

-- The comparison accepts exactly the pairs that agree in some letter, in either case, and those
-- whose first text is shorter.
pub string_compare_accepts :
    (a b : List ℕ) → (string_compare a b ≡ true) ↔ (Agrees a b ⊎ (length a < length b))
string_compare_accepts a b = (
  compare-Agrees a b,
  λ h. elim h [ inl s ↦ Agrees-compare s | inr short ↦ shorter-compare a b short ],
)
