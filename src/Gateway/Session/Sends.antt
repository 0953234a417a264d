-- ===== src/Gateway/Session/Sends.antt =====
-- The facts of a session over sendPacket, disconnect and onPlayerLogin.
use cerios_cluster.Common.{
  ℕ, List, [], ◌∷◌, ◌++◌, append_assoc, Bool, true, false, not, ◌||◌, Option, none, some, ◌≡◌, refl,
  sym, subst, arith, if_elim,
}
use cerios_cluster.McPacket.Base.{Environment, frame_packet, client_bound, login, play}
use cerios_cluster.McPacket.Classes.{AnyPacket, serialize}
use cerios_cluster.McPacket.Registry.{instantiate_new}
use cerios_cluster.Gateway.Host.{Host}
use cerios_cluster.Gateway.Client.{
  Turn, Owner, Effect, close_socket, client_disconnected, async_write, async_write_freed,
  timer_wait, farewell, disconnect, on_write_complete, emit, with_client,
}
use cerios_cluster.Gateway.Client.Send.{
  encrypted_data, send_data, compress_step, send_packet, login_success, hand_off_to,
  on_player_login, get_side,
}
use cerios_cluster.Gateway.Session.{is_connect, any_effect}
use cerios_cluster.Gateway.Session.Facts.{
  SessionFacts, IsSession, EnsuresSession, Ensures, Ensures-bind, Ensures-any, any_effect-snoc,
  both,
}
use cerios_cluster.Gateway.Session.Emits.{
  emit_benign, emit_write, emit_write_freed, emit_hand_off, close,
}

-- A player may be handed over: it is on the loopback address, or the session server was asked.
abbrev pub IsCleared : {Cipher : Type 0} → Turn Cipher → Type 0
IsCleared t = (t.client.is_loopback || any_effect is_connect t.effects) ≡ true

abbrev pub IsWelcome : (seen : Bool) → {Cipher : Type 0} → Turn Cipher → Type 0
IsWelcome seen t = IsSession seen t × IsCleared t

pub Cleared-snoc :
    (loopback : Bool) (es : List Effect) (e : Effect)
    → (loopback || any_effect is_connect es) ≡ true
    → (loopback || any_effect is_connect (es ++ (e ∷ []))) ≡ true
Cleared-snoc loopback es e c = ground (arith, any_effect-snoc is_connect es e)

pub farewell-IsSession :
    {seen : Bool} {es : List Effect} {threshold : ℕ} {encrypted keys loopback alive : Bool}
    (o : Option Owner)
    → SessionFacts seen es threshold encrypted keys loopback alive
    → SessionFacts seen (es ++ farewell o) threshold encrypted keys loopback false
unfolding farewell
farewell-IsSession none v = close v
farewell-IsSession {seen} {es} {threshold} {encrypted} {keys} {loopback} (some o) v =
    subst (λ es'. SessionFacts seen es' threshold encrypted keys loopback false)
      (append_assoc es (close_socket ∷ []) (client_disconnected o ∷ []))
      (emit_benign (close v) (client_disconnected o) refl)

pub disconnect-IsSession :
    {seen : Bool} {Cipher : Type 0} (t : Turn Cipher)
    → IsSession seen t
    → IsSession seen (disconnect t)
unfolding disconnect
disconnect-IsSession {seen} {Cipher} t v =
    if_elim (λ (t' : Turn Cipher). IsSession seen t') t.client.alive
      (λ a. farewell-IsSession t.client.owner v) (λ a. v)

pub on_write_complete-IsSession :
    {seen : Bool} {Cipher : Type 0} (t : Turn Cipher) (error : Bool)
    → IsSession seen t
    → IsSession seen (on_write_complete t error)
unfolding on_write_complete
on_write_complete-IsSession t true v = disconnect-IsSession t v
on_write_complete-IsSession t false v = v

module _ (h : Host) where
  open h use {Cipher}

  both-encrypted_data :
      (c d : Option Cipher) (bytes : List ℕ) → both (encrypted_data h c bytes).0 d ≡ both c d
  unfolding encrypted_data
  both-encrypted_data none d bytes = refl
  both-encrypted_data (some c) none bytes = refl
  both-encrypted_data (some c) (some d) bytes = refl

  send_data-IsCleared :
      (t : Turn Cipher) (bytes : List ℕ) → IsCleared t → IsCleared (send_data h t bytes)
  unfolding send_data
  send_data-IsCleared t bytes c =
      if_elim (λ (t' : Turn Cipher). IsCleared t') (not t.client.alive) (λ a. c)
        (λ a.
          if_elim (λ (t' : Turn Cipher). IsCleared t') t.client.encrypted
            (λ e.
              Cleared-snoc t.client.is_loopback t.effects
                (async_write_freed (encrypted_data h t.client.encrypt_context bytes).1) c)
            (λ e. Cleared-snoc t.client.is_loopback t.effects (async_write bytes) c))

  -- Whatever sendData keeps, sendPacket keeps.
  send_packet-keeps :
      (P : Turn Cipher → Type 0) (fuel : ℕ) (t : Turn Cipher) (m : AnyPacket)
      → ((bytes : List ℕ) → P (send_data h t bytes))
      → Ensures P (send_packet h fuel t m)
  unfolding send_packet
  send_packet-keeps P fuel t m keep = Ensures-any P (serialize get_side m) _ (λ m'.
      Ensures-any P (compress_step h fuel t.client m') _
        (λ p. Ensures-any P (frame_packet p) _ (λ framed. keep framed.raw_payload)))

module _ {seen : Bool} (h : Host) where
  open h use {Cipher}

  pub send_data-IsSession :
      (t : Turn Cipher) (bytes : List ℕ) → IsSession seen t → IsSession seen (send_data h t bytes)
  unfolding send_data
  send_data-IsSession t bytes v =
      if_elim (λ (t' : Turn Cipher). IsSession seen t') (not t.client.alive) (λ a. v)
        (λ a.
          if_elim (λ (t' : Turn Cipher). IsSession seen t') t.client.encrypted
            (λ e.
              subst
                (λ keys.
                  SessionFacts seen
                    (t.effects
                      ++ (async_write_freed (encrypted_data h t.client.encrypt_context bytes).1
                          ∷ []))
                    t.client.compression_threshold t.client.encrypted keys t.client.is_loopback
                    t.client.alive)
                (sym
                  (both-encrypted_data h t.client.encrypt_context t.client.decrypt_context bytes))
                (emit_write_freed v (encrypted_data h t.client.encrypt_context bytes).1
                  (ground (arith, a))))
            (λ e. emit_write v bytes (ground (arith, a))))

  pub send_packet-IsSession :
      (fuel : ℕ) (t : Turn Cipher) (m : AnyPacket)
      → IsSession seen t
      → EnsuresSession seen (send_packet h fuel t m)
  send_packet-IsSession fuel t m v =
      send_packet-keeps h (λ (t' : Turn Cipher). IsSession seen t') fuel t m
        (λ bytes. send_data-IsSession t bytes v)

  send_packet-IsWelcome :
      (fuel : ℕ) (t : Turn Cipher) (m : AnyPacket)
      → IsWelcome seen t
      → Ensures (λ (t' : Turn Cipher). IsWelcome seen t') (send_packet h fuel t m)
  send_packet-IsWelcome fuel t m (v, c) =
      send_packet-keeps h (λ (t' : Turn Cipher). IsWelcome seen t') fuel t m
        (λ bytes. (send_data-IsSession t bytes v, send_data-IsCleared h t bytes c))

  hand_off_to-IsSession :
      (t : Turn Cipher) (o : Option Owner) → IsWelcome seen t → IsSession seen (hand_off_to h t o)
  unfolding hand_off_to
  hand_off_to-IsSession t none (v, c) = v
  hand_off_to-IsSession t (some o) (v, c) = emit_hand_off v o c

  -- A player that may be handed over is.
  pub on_player_login-IsSession :
      (fuel : ℕ) (env : Environment) (t : Turn Cipher)
      → IsWelcome seen t
      → EnsuresSession seen (on_player_login h fuel env t)
  unfolding on_player_login
  on_player_login-IsSession fuel env t w =
      Ensures-any (λ (t' : Turn Cipher). IsSession seen t')
        (login_success h t.client (instantiate_new env client_bound login 0x02)) _
        (λ m.
          Ensures-bind (λ (t' : Turn Cipher). IsWelcome seen t')
            (λ (t' : Turn Cipher). IsSession seen t') (send_packet h fuel t m) _
            (send_packet-IsWelcome fuel t m w)
            (λ t₁ (v, c).
              hand_off_to-IsSession
                (emit (with_client t₁ (record t₁.client { state = play; last_seen = env.time }))
                  timer_wait)
                t₁.client.owner
                (
                  emit_benign v timer_wait refl,
                  Cleared-snoc t₁.client.is_loopback t₁.effects timer_wait c,
                )))
