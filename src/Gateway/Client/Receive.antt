-- ===== src/Gateway/Client/Receive.antt =====
-- Client Gateway/Client.cpp: onLengthReceive and decrypt.
pub mod Framing
use cerios_cluster.Common.{
  ℕ, zero, suc, ◌+◌, ◌-◌, ◌*◌, ◌/◌, ◌%◌, ◌^◌, ◌<◌, ◌≤◌, List, [], ◌∷◌, ◌++◌, Bool, true, false,
  ◌&&◌, ◌||◌, not, ltb, leb, ◌==◌, Option, none, some, if◌then◌else◌, length, take, drop, replicate,
}
use cerios_cluster.Common.Outcome.{Outcome, ok, throws, undefined, endless, length_error, ◌>>=◌}
use cerios_cluster.McPacket.Base.{
  Packet, Environment, Side, client_bound, server_bound, bi_directional, ClientState, handshake,
  status, login, play, client_state, frame_packet, as_size,
}
use cerios_cluster.McPacket.Base
use cerios_cluster.Gateway.Host.{Host}
use cerios_cluster.McPacket.VarInt.{VarIntRead, read_var_int_from_buffer}
use cerios_cluster.McPacket.Parse.{parse_packet}
use cerios_cluster.McPacket.Classes.{AnyPacket}
use cerios_cluster.Gateway.Client.{
  Client, Turn, start_read, emit, with_client, compresses, disconnect,
}
use cerios_cluster.Gateway.Client.Login.{received_message}

-- The catch clause round receivedMessage: an exception disconnects, and nothing more is read. What
-- the handler had assigned before it threw is left to the steps of Gateway/Session.
unfoldable pub caught :
    {Cipher : Type 0} → Turn Cipher → Outcome (Turn Cipher) → Outcome (Turn Cipher)
unfolding disconnect
caught t (ok t') = ok (emit t' start_read)
caught t (throws e) = ok (disconnect t)
caught t undefined = undefined
caught t endless = endless

module _ (h : Host) where
  open h use {Cipher, decrypt_update, inflater}

  -- The clear text behind the buffer. The length -1 of a failed decryption, as a size_t, takes the
  -- last byte off the buffer, and off an empty one it is more than a vector can have.
  unfoldable pub append_clear : Client Cipher → Option (List ℕ) → Outcome (Client Cipher)
  append_clear c (some clear) = ok (record c { buffer = c.buffer ++ clear })
  append_clear c none =
      if length c.buffer == 0
      then throws length_error
      else ok (record c { buffer = take (length c.buffer - 1) c.buffer })

  -- decrypt with a context that was never set up fails.
  unfoldable pub decrypted : Client Cipher → Option Cipher → List ℕ → Outcome (Client Cipher)
  unfolding append_clear
  decrypted c none cipher_text = append_clear c none
  decrypted c (some context) cipher_text =
      let call = decrypt_update context cipher_text in
      append_clear (record c { decrypt_context = some call.context }) call.text

  -- The data of the socket into the buffer. In encrypted mode all whole blocks of `encryptedBuffer`
  -- are decrypted, and they stay in it.
  unfoldable pub take_data : Client Cipher → List ℕ → Outcome (Client Cipher)
  unfolding decrypted
  take_data c bytes = elim c.encrypted [
    | false ↦ ok (record c { buffer = c.buffer ++ bytes })
    | true ↦
        let held = c.encrypted_buffer ++ bytes in
        decrypted (record c { encrypted_buffer = held }) c.decrypt_context
          (take (length held / 2 ^ 4 * 2 ^ 4) held)
  ]

  -- The packet that parsePacket found, if it did
  unfoldable pub handle_parsed :
      ℕ → Environment → Turn Cipher → Option AnyPacket → Outcome (Turn Cipher)
  handle_parsed fuel env t none = ok (emit t start_read)
  handle_parsed fuel env t (some m) = caught t (received_message h fuel env t m)

  -- The buffer without the length in front, and the call of parsePacket
  unfoldable pub parse_next : ℕ → Environment → Turn Cipher → VarIntRead → Outcome (Turn Cipher)
  parse_next fuel env t r = do
    (packet, left) ←
        parse_packet inflater fuel env server_bound (as_size r.value) (drop r.count t.client.buffer)
          t.client.state (compresses t.client) true
    handle_parsed fuel env (with_client t (record t.client { buffer = left })) packet

  -- `this->buffer.size() >= messageLength + varintSize`, a size_t sum that wraps
  abbrev pub is_complete : Client Cipher → VarIntRead → Bool
  is_complete c r = leb ((as_size r.value + r.count) % 2 ^ 64) (length c.buffer)

  -- From the length of the message on
  unfoldable pub next_message : ℕ → Environment → Turn Cipher → Outcome (Turn Cipher)
  next_message fuel env t = do
    r ← read_var_int_from_buffer t.client.buffer false
    if ltb 0 r.count && is_complete t.client r
        then parse_next fuel env t r
        else ok (emit t start_read)

  -- onLengthReceive
  unfoldable pub on_length_receive :
      ℕ → Environment → Turn Cipher → List ℕ → (error : Bool) → Outcome (Turn Cipher)
  on_length_receive fuel env t bytes error =
      if not t.client.alive
      then ok t
      else if error
      then ok (disconnect t)
      else (take_data t.client bytes >>= λ c. next_message fuel env (with_client t c))
