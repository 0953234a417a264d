-- ===== src/Gateway/Pointers.antt =====
-- A std::unordered_map of std::unique_ptr as an association list: the servers of Client Gateway/ keep
-- their clients in such maps. The value none is a null pointer.
use cerios_cluster.Common.{
  List, [], ◌∷◌, Bool, true, Option, none, some, if◌then◌else◌, ◌≡◌, refl, ap, Bool-cases, inl, inr,
  arith,
}

abbrev pub Pointers : Type 0 → Type 0 → Type 0
Pointers K V = List (K × Option V)

module _ {K V : Type 0} (same_key : K → K → Bool) where
  -- `find`
  unfoldable pub entry : K → Pointers K V → Option (Option V)
  entry k [] = none
  entry k ((j, v) ∷ rest) = if same_key j k then some v else entry k rest

  -- `map[k] = v`
  unfoldable pub put : K → Option V → Pointers K V → Pointers K V
  put k v [] = (k, v) ∷ []
  put k v ((j, w) ∷ rest) = if same_key j k then (j, v) ∷ rest else (j, w) ∷ put k v rest

  -- What `map[k]` leaves: a key that is not there gets a null pointer.
  unfoldable pub touch : K → Pointers K V → Pointers K V
  touch k [] = (k, none) ∷ []
  touch k ((j, w) ∷ rest) = if same_key j k then (j, w) ∷ rest else (j, w) ∷ touch k rest

  -- What `map[k]` refers to
  unfoldable pub pointer : K → Pointers K V → Option V
  pointer k [] = none
  pointer k ((j, v) ∷ rest) = if same_key j k then v else pointer k rest

  -- `erase(k)`
  unfoldable pub erase : K → Pointers K V → Pointers K V
  erase k [] = []
  erase k ((j, w) ∷ rest) = let kept = erase k rest in if same_key j k then kept else (j, w) ∷ kept

  pub entry-erase : (k : K) (m : Pointers K V) → entry k (erase k m) ≡ none
  unfolding entry erase
  entry-erase k [] = refl
  entry-erase k ((j, w) ∷ rest) = elim (Bool-cases (same_key j k)) [
    | inl e ↦ rw e (entry-erase k rest)
    | inr e ↦ rw e (rw e (entry-erase k rest))
  ]

  pub pointer-missing : (k : K) (m : Pointers K V) → entry k m ≡ none → pointer k m ≡ none
  unfolding entry pointer
  pointer-missing k [] e = refl
  pointer-missing k ((j, v) ∷ rest) e = elim (Bool-cases (same_key j k)) [
    | inl s ↦ ground (arith, s, e)
    | inr s ↦ ground (arith, s, e, pointer-missing k rest)
  ]

  pub pointer-put :
      (k : K) (v : Option V) (m : Pointers K V) → same_key k k ≡ true → pointer k (put k v m) ≡ v
  unfolding pointer put
  pointer-put k v [] r = rw r
  pointer-put k v ((j, w) ∷ rest) r = elim (Bool-cases (same_key j k)) [
    | inl s ↦ rw s (rw s refl)
    | inr s ↦ rw s (rw s (pointer-put k v rest r))
  ]

  -- To erase a key undoes what was put there.
  pub erase-put :
      (k : K) (v : Option V) (m : Pointers K V)
      → same_key k k ≡ true
      → erase k (put k v m) ≡ erase k m
  unfolding erase put
  erase-put k v [] r = rw r
  erase-put k v ((j, w) ∷ rest) r = elim (Bool-cases (same_key j k)) [
    | inl s ↦ rw s (rw s refl)
    | inr s ↦ rw s (rw s (ap (λ (m : Pointers K V). (j, w) ∷ m) (erase-put k v rest r)))
  ]
