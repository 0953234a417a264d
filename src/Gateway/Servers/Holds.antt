-- ===== src/Gateway/Servers/Holds.antt =====
-- A map of pointers of which each that is not null points to something with a property.
use cerios_cluster.Common.{[], ◌∷◌, Bool, Option, none, some, if_elim}
use cerios_cluster.Gateway.Pointers.{Pointers, put, touch, pointer, erase}

abbrev pub Holds : {V : Type 0} → (V → Type 0) → Option V → Type 0
Holds P none = Unit
Holds P (some v) = P v

abbrev pub AllHold : {K V : Type 0} → (V → Type 0) → Pointers K V → Type 0
AllHold P [] = Unit
AllHold P ((k, v) ∷ rest) = Holds P v × AllHold P rest

module _ {K V : Type 0} (same_key : K → K → Bool) (P : V → Type 0) (k : K) where
  pub put-AllHold :
      (v : Option V) (m : Pointers K V) → Holds P v → AllHold P m → AllHold P (put same_key k v m)
  unfolding put
  put-AllHold v [] p a = (p, tt)
  put-AllHold v ((j, w) ∷ rest) p (q, a) =
      if_elim (λ (m : Pointers K V). AllHold P m) (same_key j k) (λ s. (p, a))
        (λ s. (q, put-AllHold v rest p a))

  pub touch-AllHold : (m : Pointers K V) → AllHold P m → AllHold P (touch same_key k m)
  unfolding touch
  touch-AllHold [] a = (tt, tt)
  touch-AllHold ((j, w) ∷ rest) (q, a) =
      if_elim (λ (m : Pointers K V). AllHold P m) (same_key j k) (λ s. (q, a))
        (λ s. (q, touch-AllHold rest a))

  pub erase-AllHold : (m : Pointers K V) → AllHold P m → AllHold P (erase same_key k m)
  unfolding erase
  erase-AllHold [] a = tt
  erase-AllHold ((j, w) ∷ rest) (q, a) =
      if_elim (λ (m : Pointers K V). AllHold P m) (same_key j k) (λ s. erase-AllHold rest a)
        (λ s. (q, erase-AllHold rest a))

  pub pointer-Holds : (m : Pointers K V) → AllHold P m → Holds P (pointer same_key k m)
  unfolding pointer
  pointer-Holds [] a = tt
  pointer-Holds ((j, w) ∷ rest) (q, a) =
      if_elim (λ (v : Option V). Holds P v) (same_key j k) (λ s. q) (λ s. pointer-Holds rest a)
