-- ===== src/Gateway/Session/Facts.antt =====
-- What holds of a client and of what it has asked for, between two calls.
use cerios_cluster.Common.{
  ℕ, ◌-◌, ◌^◌, List, [], ◌∷◌, ◌++◌, Bool, true, false, not, ◌&&◌, ◌||◌, Option, none, some, ◌≡◌,
  refl, subst, arith,
}
use cerios_cluster.Common.Outcome.{Outcome, ok, throws, undefined, endless, ◌>>=◌}
use cerios_cluster.Gateway.Client.{Effect, Client, Turn, Owner, new_client}
use cerios_cluster.Gateway.Session.{
  is_write, is_close, is_hand_off, is_connect, is_stage, any_effect,
}

-- Nothing is written behind a close.
abbrev pub quiet : List Effect → Bool
quiet [] = true
quiet (e ∷ es) = (not (is_close e) || not (any_effect is_write es)) && quiet es

-- Each effect of the first kind has one of the second kind before it.
abbrev pub preceded : (p q : Effect → Bool) → List Effect → Bool
preceded p q [] = true
preceded p q (e ∷ es) = q e || (not (p e) && preceded p q es)

-- Both ciphers are set up.
abbrev pub both : {Cipher : Type 0} → Option Cipher → Option Cipher → Bool
both (some a) (some b) = true
both (some a) none = false
both none b = false

abbrev pub has_keys : {Cipher : Type 0} → Client Cipher → Bool
has_keys c = both c.encrypt_context c.decrypt_context

pub record SessionFacts (seen : Bool) (effects : List Effect) (threshold : ℕ)
    (encrypted keys loopback alive : Bool) : Type 0 where
  -- Compression is never turned on.
  pub plain : threshold ≡ 2 ^ 32 - 1
  -- Encryption comes after the question to the session server, and that after the keys.
  pub keyed : encrypted ≡ true → any_effect is_connect effects ≡ true
  pub ready : any_effect is_connect effects ≡ true → keys ≡ true
  pub staged : any_effect is_stage effects ≡ true → any_effect is_connect effects ≡ true
  pub in_order : preceded is_stage is_connect effects ≡ true
  -- A player is handed over behind that question, or without it from the loopback address.
  pub handed : (loopback || preceded is_hand_off is_connect effects) ≡ true
  -- Where the question was seen to be asked, or not to be needed, it still is.
  pub remembered : seen ≡ true → (loopback || any_effect is_connect effects) ≡ true
  pub silent : quiet effects ≡ true
  pub open_socket : alive ≡ true → any_effect is_close effects ≡ false

abbrev pub IsSession : (seen : Bool) → {Cipher : Type 0} → Turn Cipher → Type 0
IsSession seen t =
    SessionFacts seen t.effects t.client.compression_threshold t.client.encrypted
      (has_keys t.client) t.client.is_loopback t.client.alive

pub any_effect-snoc :
    (p : Effect → Bool) (es : List Effect) (e : Effect)
    → any_effect p (es ++ (e ∷ [])) ≡ (any_effect p es || p e)
any_effect-snoc p [] e = ground arith
any_effect-snoc p (f ∷ es) e = ground (arith, any_effect-snoc p es e)

pub preceded-snoc :
    (p q : Effect → Bool) (es : List Effect) (e : Effect)
    → preceded p q (es ++ (e ∷ [])) ≡ (preceded p q es && (any_effect q es || (q e || not (p e))))
preceded-snoc p q [] e = ground arith
preceded-snoc p q (f ∷ es) e = ground (arith, preceded-snoc p q es e)

pub quiet-snoc :
    (es : List Effect) (e : Effect)
    → quiet (es ++ (e ∷ [])) ≡ (quiet es && (not (any_effect is_close es) || not (is_write e)))
quiet-snoc [] e = ground arith
quiet-snoc (f ∷ es) e = ground (arith, any_effect-snoc is_write es e, quiet-snoc es e)

pub new_client-IsSession :
    (Cipher : Type 0) (o : Owner) (is_loopback : Bool) (now : ℕ) (stale_token : List ℕ)
    → IsSession false (new_client {Cipher = Cipher} o is_loopback now stale_token)
unfolding new_client
new_client-IsSession Cipher o is_loopback now stale_token = record {
  plain = refl;
  keyed = λ e. cc;
  ready = λ e. cc;
  staged = λ e. cc;
  in_order = refl;
  handed = ground arith;
  remembered = λ e. cc;
  silent = refl;
  open_socket = λ e. refl;
}

-- What a call that may fail has to keep where it returns.
abbrev pub Ensures {ℓ κ} : {A : Type ℓ} → (A → Type κ) → Outcome A → Type κ
Ensures P (ok a) = P a
Ensures P (throws e) = Unit
Ensures P undefined = Unit
Ensures P endless = Unit

pub Ensures-bind {ℓ κ μ ν} :
    {A : Type ℓ} {B : Type κ} (P : A → Type μ) (Q : B → Type ν) (m : Outcome A) (f : A → Outcome B)
    → Ensures P m
    → ((a : A) → P a → Ensures Q (f a))
    → Ensures Q (m >>= f)
Ensures-bind P Q (ok a) f p q = q a p
Ensures-bind P Q (throws e) f p q = tt
Ensures-bind P Q undefined f p q = tt
Ensures-bind P Q endless f p q = tt

pub Ensures-any {ℓ κ ν} :
    {A : Type ℓ} {B : Type κ} (Q : B → Type ν) (m : Outcome A) (f : A → Outcome B)
    → ((a : A) → Ensures Q (f a))
    → Ensures Q (m >>= f)
Ensures-any Q (ok a) f q = q a
Ensures-any Q (throws e) f q = tt
Ensures-any Q undefined f q = tt
Ensures-any Q endless f q = tt

pub Ensures-ok {ℓ κ} :
    {A : Type ℓ} (P : A → Type κ) (m : Outcome A) {a : A} → Ensures P m → m ≡ ok a → P a
Ensures-ok P m p e = subst (λ x. Ensures P x) e p

abbrev pub EnsuresSession : (seen : Bool) → {Cipher : Type 0} → Outcome (Turn Cipher) → Type 0
EnsuresSession seen {Cipher} m = Ensures (λ (t : Turn Cipher). IsSession seen t) m
