-- ===== src/Gateway/Session/Reads.antt =====
-- The facts of a session over onLengthReceive and keepAlive.
use cerios_cluster.Common.{
  Bool-cases, inl, inr, ℕ, List, ◌++◌, ◌/◌, ◌*◌, ◌-◌, ◌^◌, Bool, true, false, not, ltb, ◌&&◌,
  Option, none, some, ◌==◌, length, take, drop, ◌≡◌, refl, subst, if_elim,
}
use cerios_cluster.Common.Outcome.{Outcome, ok, throws, undefined, endless}
use cerios_cluster.McPacket.Base.{Environment, client_bound, server_bound, as_size}
use cerios_cluster.McPacket.VarInt.{VarIntRead, read_var_int_from_buffer}
use cerios_cluster.McPacket.Parse.{parse_packet}
use cerios_cluster.McPacket.Classes.{AnyPacket}
use cerios_cluster.McPacket.Registry.{instantiate_new}
use cerios_cluster.Gateway.Host.{Host}
use cerios_cluster.Gateway.Client.{
  Client, Turn, start_read, socket_cancel, timer_wait, timer_expires_from_now, with_client,
  compresses,
}
use cerios_cluster.Gateway.Client.Send.{send_packet}
use cerios_cluster.Gateway.Client.Receive.{
  caught, append_clear, decrypted, take_data, handle_parsed, parse_next, is_complete, next_message,
  on_length_receive,
}
use cerios_cluster.Gateway.Client.Timer.{
  as_keep_alive, send_keep_alive, keep_alive, keep_alive_period, keep_alive_timeout,
}
use cerios_cluster.Gateway.Client.Login.{received_message}
use cerios_cluster.Gateway.Session.Facts.{
  SessionFacts, IsSession, EnsuresSession, Ensures, Ensures-bind, Ensures-any, both,
}
use cerios_cluster.Gateway.Session.Emits.{emit_benign}
use cerios_cluster.Gateway.Session.Sends.{disconnect-IsSession, send_packet-IsSession}
use cerios_cluster.Gateway.Session.Logins.{received_message-IsSession}

module _ {seen : Bool} {Cipher : Type 0} where
  caught-IsSession :
      (t : Turn Cipher) (m : Outcome (Turn Cipher))
      → IsSession seen t
      → EnsuresSession seen m
      → EnsuresSession seen (caught t m)
  unfolding caught
  caught-IsSession t (ok t') v w = emit_benign w start_read refl
  caught-IsSession t (throws e) v w = disconnect-IsSession t v
  caught-IsSession t undefined v w = tt
  caught-IsSession t endless v w = tt

pub both-some :
    {Cipher : Type 0} (e : Option Cipher) (c d : Cipher) → both e (some c) ≡ both e (some d)
both-some none c d = refl
both-some (some a) c d = refl

module _ (h : Host) where
  open h use {Cipher, decrypt_update, inflater}

  append_clear-keeps :
      (P : Client Cipher → Type 0) (c : Client Cipher) (clear : Option (List ℕ))
      → ((buffer : List ℕ) → P (record c { buffer = buffer }))
      → Ensures P (append_clear h c clear)
  unfolding append_clear
  append_clear-keeps P c (some clear) keep = keep (c.buffer ++ clear)
  append_clear-keeps P c none keep =
      if_elim (Ensures P) (length c.buffer == 0) (λ a. tt)
        (λ a. keep (take (length c.buffer - 1) c.buffer))

module _ {seen : Bool} (h : Host) where
  open h use {Cipher, decrypt_update, inflater}

  decrypted-IsSession :
      (t : Turn Cipher) (d : Option Cipher) (cipher_text : List ℕ)
      → SessionFacts seen t.effects t.client.compression_threshold t.client.encrypted
          (both t.client.encrypt_context d)
          t.client.is_loopback
          t.client.alive
      → Ensures
          (λ (c : Client Cipher). IsSession seen (with_client t c))
          (decrypted h (record t.client { decrypt_context = d }) d cipher_text)
  unfolding decrypted
  decrypted-IsSession t none cipher_text v =
      append_clear-keeps h (λ (c : Client Cipher). IsSession seen (with_client t c))
        (record t.client { decrypt_context = none }) none (λ buffer. v)
  decrypted-IsSession t (some context) cipher_text v =
      append_clear-keeps h (λ (c : Client Cipher). IsSession seen (with_client t c))
        (record t.client { decrypt_context = some (decrypt_update context cipher_text).context })
        (decrypt_update context cipher_text).text
        (λ buffer.
          subst
            (λ keys.
              SessionFacts seen t.effects t.client.compression_threshold t.client.encrypted keys
                t.client.is_loopback t.client.alive)
            (both-some t.client.encrypt_context context
              (decrypt_update context cipher_text).context)
            v)

  take_data-IsSession :
      (t : Turn Cipher) (bytes : List ℕ)
      → IsSession seen t
      → Ensures
          (λ (c : Client Cipher). IsSession seen (with_client t c))
          (take_data h t.client bytes)
  unfolding take_data
  take_data-IsSession t bytes v = elim (Bool-cases t.client.encrypted) [
    | inl p ↦
        rw (p, take_data)
          (decrypted-IsSession
            (with_client t
              (record t.client { encrypted_buffer = t.client.encrypted_buffer ++ bytes }))
            t.client.decrypt_context
            (take (length (t.client.encrypted_buffer ++ bytes) / 2 ^ 4 * 2 ^ 4)
              (t.client.encrypted_buffer ++ bytes))
            v)
    | inr p ↦ rw (p, take_data) v
  ]

  handle_parsed-IsSession :
      (fuel : ℕ) (env : Environment) (t : Turn Cipher) (packet : Option AnyPacket)
      → IsSession seen t
      → EnsuresSession seen (handle_parsed h fuel env t packet)
  unfolding handle_parsed
  handle_parsed-IsSession fuel env t none v = emit_benign v start_read refl
  handle_parsed-IsSession fuel env t (some m) v =
      caught-IsSession t (received_message h fuel env t m) v
        (received_message-IsSession h fuel env t m v)

  parse_next-IsSession :
      (fuel : ℕ) (env : Environment) (t : Turn Cipher) (r : VarIntRead)
      → IsSession seen t
      → EnsuresSession seen (parse_next h fuel env t r)
  unfolding parse_next
  parse_next-IsSession fuel env t r v =
      Ensures-any (λ (t' : Turn Cipher). IsSession seen t')
        (parse_packet inflater fuel env server_bound (as_size r.value)
          (drop r.count t.client.buffer) t.client.state (compresses t.client) true)
        _
        (λ (packet, left).
          handle_parsed-IsSession fuel env (with_client t (record t.client { buffer = left }))
            packet v)

  next_message-IsSession :
      (fuel : ℕ) (env : Environment) (t : Turn Cipher)
      → IsSession seen t
      → EnsuresSession seen (next_message h fuel env t)
  unfolding next_message
  next_message-IsSession fuel env t v =
      Ensures-any (λ (t' : Turn Cipher). IsSession seen t')
        (read_var_int_from_buffer t.client.buffer false) _
        (λ r.
          if_elim (EnsuresSession seen) (ltb 0 r.count && is_complete h t.client r)
            (λ a. parse_next-IsSession fuel env t r v) (λ a. emit_benign v start_read refl))

  pub on_length_receive-IsSession :
      (fuel : ℕ) (env : Environment) (t : Turn Cipher) (bytes : List ℕ) (error : Bool)
      → IsSession seen t
      → EnsuresSession seen (on_length_receive h fuel env t bytes error)
  unfolding on_length_receive
  on_length_receive-IsSession fuel env t bytes error v =
      if_elim (EnsuresSession seen) (not t.client.alive) (λ a. v)
        (λ a.
          if_elim (EnsuresSession seen) error (λ b. disconnect-IsSession t v)
            (λ b.
              Ensures-bind (λ (c : Client Cipher). IsSession seen (with_client t c))
                (λ (t' : Turn Cipher). IsSession seen t') (take_data h t.client bytes) _
                (take_data-IsSession t bytes v)
                (λ c w. next_message-IsSession fuel env (with_client t c) w)))

  send_keep_alive-IsSession :
      (fuel : ℕ) (t : Turn Cipher) (packet : Option AnyPacket)
      → IsSession seen t
      → EnsuresSession seen (send_keep_alive h fuel t packet)
  unfolding send_keep_alive
  send_keep_alive-IsSession fuel t none v = emit_benign v socket_cancel refl
  send_keep_alive-IsSession fuel t (some m) v =
      Ensures-bind (λ (t' : Turn Cipher). IsSession seen t')
        (λ (t' : Turn Cipher). IsSession seen t') (send_packet h fuel t m) _
        (send_packet-IsSession h fuel t m v)
        (λ t' w.
          emit_benign (emit_benign w (timer_expires_from_now keep_alive_period) refl) timer_wait
            refl)

  pub keep_alive-IsSession :
      (fuel : ℕ) (env : Environment) (t : Turn Cipher) (error : Bool)
      → IsSession seen t
      → EnsuresSession seen (keep_alive h fuel env t error)
  unfolding keep_alive
  keep_alive-IsSession fuel env t error v =
      if_elim (EnsuresSession seen) (not t.client.alive) (λ a. v)
        (λ a.
          if_elim (EnsuresSession seen) error (λ b. disconnect-IsSession t v)
            (λ b.
              if_elim (EnsuresSession seen) (ltb keep_alive_timeout (env.time - t.client.last_seen))
                (λ d. emit_benign v socket_cancel refl)
                (λ d.
                  send_keep_alive-IsSession fuel t
                    (as_keep_alive (instantiate_new env client_bound t.client.state 0x00)) v)))
