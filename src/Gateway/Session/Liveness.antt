-- ===== src/Gateway/Session/Liveness.antt =====
-- What a client that has handled its data waits for.
use cerios_cluster.Common.{
  ℕ, List, [], ◌∷◌, ◌++◌, ◌⊎◌, Bool-cases, inl, inr, Bool, true, false, not, ltb, ◌&&◌, ◌||◌,
  Option, none, some, ◌≡◌, refl, if_elim, drop, arith,
}
use cerios_cluster.Common.Outcome.{Outcome, ok, throws, undefined, endless}
use cerios_cluster.McPacket.Base.{Environment, server_bound, as_size}
use cerios_cluster.McPacket.VarInt.{VarIntRead, read_var_int_from_buffer}
use cerios_cluster.McPacket.Parse.{parse_packet}
use cerios_cluster.McPacket.Classes.{AnyPacket}
use cerios_cluster.Gateway.Host.{Host}
use cerios_cluster.Gateway.Client.{
  Turn, Effect, start_read, emit, with_client, compresses, disconnect,
}
use cerios_cluster.Gateway.Client.Login.{received_message}
use cerios_cluster.Gateway.Client.Receive.{
  caught, take_data, handle_parsed, parse_next, is_complete, next_message, on_length_receive,
}
use cerios_cluster.Gateway.Session.Facts.{Ensures, Ensures-any, Ensures-ok}

abbrev pub is_start_read : Effect → Bool
is_start_read start_read = true
is_start_read _ = false

-- The last effect is the start of a read.
abbrev pub reads_last : List Effect → Bool
reads_last [] = false
reads_last (e ∷ []) = is_start_read e
reads_last (e ∷ f ∷ es) = reads_last (f ∷ es)

-- The client waits for data, or it is closed.
abbrev pub goes_on_reading : {Cipher : Type 0} → Turn Cipher → Bool
goes_on_reading t = reads_last t.effects || not t.client.alive

reads_last-snoc : (es : List Effect) → reads_last (es ++ (start_read ∷ [])) ≡ true
reads_last-snoc [] = refl
reads_last-snoc (e ∷ []) = refl
reads_last-snoc (e ∷ f ∷ es) = reads_last-snoc (f ∷ es)

module _ {Cipher : Type 0} where
  abbrev pub EnsuresReading : Outcome (Turn Cipher) → Type 0
  EnsuresReading m = Ensures (λ (t : Turn Cipher). goes_on_reading t ≡ true) m

  emit-reads : (t : Turn Cipher) → goes_on_reading (emit t start_read) ≡ true
  emit-reads t = ground (arith, reads_last-snoc t.effects)

  disconnect-reads : (t : Turn Cipher) → goes_on_reading (disconnect t) ≡ true
  unfolding disconnect
  disconnect-reads t =
      if_elim (λ (t' : Turn Cipher). goes_on_reading t' ≡ true) t.client.alive (λ a. ground arith)
        (λ a. ground (arith, a))

  caught-reads : (t : Turn Cipher) (m : Outcome (Turn Cipher)) → EnsuresReading (caught t m)
  unfolding caught
  caught-reads t (ok t') = emit-reads t'
  caught-reads t (throws e) = disconnect-reads t
  caught-reads t undefined = tt
  caught-reads t endless = tt

module _ (h : Host) (fuel : ℕ) (env : Environment) where
  open h use {Cipher, inflater}

  handle_parsed-reads :
      (t : Turn Cipher) (packet : Option AnyPacket)
      → EnsuresReading (handle_parsed h fuel env t packet)
  unfolding handle_parsed
  handle_parsed-reads t none = emit-reads t
  handle_parsed-reads t (some m) = caught-reads t (received_message h fuel env t m)

  parse_next-reads : (t : Turn Cipher) (r : VarIntRead) → EnsuresReading (parse_next h fuel env t r)
  unfolding parse_next
  parse_next-reads t r =
      Ensures-any (λ (t' : Turn Cipher). goes_on_reading t' ≡ true)
        (parse_packet inflater fuel env server_bound (as_size r.value)
          (drop r.count t.client.buffer) t.client.state (compresses t.client) true)
        _
        (λ (packet, left).
          handle_parsed-reads (with_client t (record t.client { buffer = left })) packet)

  next_message-reads : (t : Turn Cipher) → EnsuresReading (next_message h fuel env t)
  unfolding next_message
  next_message-reads t =
      Ensures-any (λ (t' : Turn Cipher). goes_on_reading t' ≡ true)
        (read_var_int_from_buffer t.client.buffer false) _
        (λ r.
          if_elim EnsuresReading (ltb 0 r.count && is_complete h t.client r)
            (λ a. parse_next-reads t r) (λ a. emit-reads t))

  on_length_receive-EnsuresReading :
      (t : Turn Cipher) (bytes : List ℕ) (error : Bool)
      → EnsuresReading (on_length_receive h fuel env t bytes error)
  unfolding on_length_receive
  on_length_receive-EnsuresReading t bytes error =
      if_elim EnsuresReading (not t.client.alive) (λ a. ground (arith, a))
        (λ a.
          if_elim EnsuresReading error (λ b. disconnect-reads t)
            (λ b.
              Ensures-any (λ (t' : Turn Cipher). goes_on_reading t' ≡ true)
                (take_data h t.client bytes) _ (λ c. next_message-reads (with_client t c))))

  -- Wherever onLengthReceive returns, the last thing that the client has asked for is a read, or the
  -- client is closed.
  pub on_length_receive_goes_on :
      (t t' : Turn Cipher) (bytes : List ℕ) (error : Bool)
      → on_length_receive h fuel env t bytes error ≡ ok t'
      → (reads_last t'.effects ≡ true) ⊎ (t'.client.alive ≡ false)
  on_length_receive_goes_on t t' bytes error e = either-reads (
      Ensures-ok (λ (u : Turn Cipher). goes_on_reading u ≡ true)
        (on_length_receive h fuel env t bytes error)
        (on_length_receive-EnsuresReading t bytes error) e)
    where
      either-reads :
          goes_on_reading t' ≡ true → (reads_last t'.effects ≡ true) ⊎ (t'.client.alive ≡ false)
      either-reads p = elim (Bool-cases t'.client.alive) [
        | inl a ↦ inl (ground (arith, a, p))
        | inr a ↦ inr a
      ]
