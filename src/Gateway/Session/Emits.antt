-- ===== src/Gateway/Session/Emits.antt =====
-- A client asks for one thing more.
use cerios_cluster.Common.{ℕ, List, [], ◌∷◌, ◌++◌, Bool, true, false, not, ◌||◌, ◌≡◌, refl, arith}
use cerios_cluster.Gateway.Client.{
  Effect, Owner, async_write, async_write_freed, close_socket, hand_off, https_connect,
  https_handshake, https_write, https_read_header, https_read_body,
}
use cerios_cluster.Gateway.Session.{
  is_write, is_close, is_hand_off, is_connect, is_stage, any_effect,
}
use cerios_cluster.Gateway.Session.Facts.{SessionFacts, any_effect-snoc, preceded-snoc, quiet-snoc}

-- What may always be asked for
abbrev pub is_benign : Effect → Bool
is_benign e = not (is_write e || (is_close e || (is_hand_off e || (is_connect e || is_stage e))))

module _ {seen : Bool} {es : List Effect} {threshold : ℕ} {encrypted keys loopback alive : Bool}
    (v : SessionFacts seen es threshold encrypted keys loopback alive) (e : Effect) where
  -- The laws of the new list are those of the old one and of what is added.
  emit_if :
      (is_write e ≡ true → any_effect is_close es ≡ false)
      → (is_close e ≡ true → alive ≡ false)
      → (is_hand_off e ≡ true → (loopback || any_effect is_connect es) ≡ true)
      → (is_connect e ≡ true → keys ≡ true)
      → (is_stage e ≡ true → any_effect is_connect es ≡ true)
      → SessionFacts seen (es ++ (e ∷ [])) threshold encrypted keys loopback alive
  emit_if w c o k s = record {
    plain = v.plain;
    keyed = λ h. rw (any_effect-snoc is_connect es e) (ground (arith, v.keyed h));
    ready = λ h. ground (arith, any_effect-snoc is_connect es e, v.ready);
    staged = λ h.
        ground (arith, any_effect-snoc is_connect es e, any_effect-snoc is_stage es e, v.staged);
    in_order = ground (arith, preceded-snoc is_stage is_connect es e, v.in_order, s);
    handed = ground (arith, preceded-snoc is_hand_off is_connect es e, v.handed, o);
    remembered = λ h. rw (any_effect-snoc is_connect es e) (ground (arith, v.remembered h));
    silent = ground (arith, quiet-snoc es e, v.silent);
    open_socket = λ h. ground (arith, any_effect-snoc is_close es e, v.open_socket);
  }

  pub emit_benign :
      is_benign e ≡ true
      → SessionFacts seen (es ++ (e ∷ [])) threshold encrypted keys loopback alive
  emit_benign b =
      emit_if (λ p. ground (arith, b, p)) (λ p. ground (arith, b, p)) (λ p. ground (arith, b, p))
        (λ p. ground (arith, b, p)) (λ p. ground (arith, b, p))

module _ {seen : Bool} {es : List Effect} {threshold : ℕ} {encrypted keys loopback alive : Bool}
    (v : SessionFacts seen es threshold encrypted keys loopback alive) where
  pub emit_write :
      (bytes : List ℕ)
      → alive ≡ true
      → SessionFacts seen (es ++ (async_write bytes ∷ [])) threshold encrypted keys loopback alive
  emit_write bytes a =
      emit_if v (async_write bytes) (λ p. v.open_socket a) (λ p. cc) (λ p. cc) (λ p. cc) (λ p. cc)

  pub emit_write_freed :
      (bytes : List ℕ)
      → alive ≡ true
      → SessionFacts seen
          (es ++ (async_write_freed bytes ∷ []))
          threshold
          encrypted
          keys
          loopback
          alive
  emit_write_freed bytes a =
      emit_if v (async_write_freed bytes) (λ p. v.open_socket a) (λ p. cc) (λ p. cc) (λ p. cc)
        (λ p. cc)

  pub emit_connect :
      (request : List ℕ)
      → keys ≡ true
      → SessionFacts seen
          (es ++ (https_connect request ∷ []))
          threshold
          encrypted
          keys
          loopback
          alive
  emit_connect request k =
      emit_if v (https_connect request) (λ p. cc) (λ p. cc) (λ p. cc) (λ p. k) (λ p. cc)

  pub emit_stage :
      (e : Effect)
      → is_stage e ≡ true
      → any_effect is_connect es ≡ true
      → SessionFacts seen (es ++ (e ∷ [])) threshold encrypted keys loopback alive
  emit_stage (https_handshake request) s c =
      emit_if v (https_handshake request) (λ p. cc) (λ p. cc) (λ p. cc) (λ p. cc) (λ p. c)
  emit_stage (https_write request) s c =
      emit_if v (https_write request) (λ p. cc) (λ p. cc) (λ p. cc) (λ p. cc) (λ p. c)
  emit_stage https_read_header s c =
      emit_if v https_read_header (λ p. cc) (λ p. cc) (λ p. cc) (λ p. cc) (λ p. c)
  emit_stage (https_read_body n held) s c =
      emit_if v (https_read_body n held) (λ p. cc) (λ p. cc) (λ p. cc) (λ p. cc) (λ p. c)
  emit_stage _ s c = cc

  pub emit_hand_off :
      (o : Owner)
      → (loopback || any_effect is_connect es) ≡ true
      → SessionFacts seen (es ++ (hand_off o ∷ [])) threshold encrypted keys loopback alive
  emit_hand_off o c = emit_if v (hand_off o) (λ p. cc) (λ p. cc) (λ p. c) (λ p. cc) (λ p. cc)

  -- The client is marked as closed, gets its keys, or goes over to encryption.
  pub shut : SessionFacts seen es threshold encrypted keys loopback false
  shut = record {
    plain = v.plain;
    keyed = v.keyed;
    ready = v.ready;
    staged = v.staged;
    in_order = v.in_order;
    handed = v.handed;
    remembered = v.remembered;
    silent = v.silent;
    open_socket = λ e. cc;
  }

  pub rekey : SessionFacts seen es threshold encrypted true loopback alive
  rekey = record {
    plain = v.plain;
    keyed = v.keyed;
    ready = λ e. refl;
    staged = v.staged;
    in_order = v.in_order;
    handed = v.handed;
    remembered = v.remembered;
    silent = v.silent;
    open_socket = v.open_socket;
  }

  pub encrypt :
      any_effect is_connect es ≡ true → SessionFacts seen es threshold true keys loopback alive
  encrypt c = record {
    plain = v.plain;
    keyed = λ e. c;
    ready = v.ready;
    staged = v.staged;
    in_order = v.in_order;
    handed = v.handed;
    remembered = v.remembered;
    silent = v.silent;
    open_socket = v.open_socket;
  }

pub close :
    {seen : Bool} {es : List Effect} {threshold : ℕ} {encrypted keys loopback alive : Bool}
    → SessionFacts seen es threshold encrypted keys loopback alive
    → SessionFacts seen (es ++ (close_socket ∷ [])) threshold encrypted keys loopback false
close v = emit_if (shut v) close_socket (λ p. cc) (λ p. refl) (λ p. cc) (λ p. cc) (λ p. cc)
