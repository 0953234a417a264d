-- ===== src/Gateway/Client/Send.antt =====
-- Client Gateway/Client.cpp: sendData, sendPacket, encrypt and onPlayerLogin.
pub mod Frames
use cerios_cluster.Common.{
  ℕ, zero, suc, ◌+◌, ◌-◌, ◌*◌, ◌/◌, ◌%◌, ◌^◌, ◌<◌, ◌≤◌, List, [], ◌∷◌, ◌++◌, Bool, true, false,
  ◌&&◌, ◌||◌, not, ltb, leb, ◌==◌, Option, none, some, if◌then◌else◌, length, take, drop, replicate,
}
use cerios_cluster.Common.Outcome.{Outcome, ok, throws, undefined, endless, length_error, ◌>>=◌}
use cerios_cluster.McPacket.Base.{
  Packet, Environment, Side, client_bound, server_bound, bi_directional, ClientState, handshake,
  status, login, play, client_state, frame_packet, as_size,
}
use cerios_cluster.McPacket.Base
use cerios_cluster.Gateway.Host.{Host}
use cerios_cluster.McPacket.Messages.Login.{LoginSuccess}
use cerios_cluster.McPacket.Compress.{compress_if_larger_than}
use cerios_cluster.McPacket.Classes.{
  AnyPacket, a_set_compression, a_login_success, base_of, serialize,
}
use cerios_cluster.McPacket.Registry.{instantiate_new}
use cerios_cluster.Gateway.Client.{
  Client, Turn, Owner, Effect, async_write, async_write_freed, timer_wait, hand_off, emit,
  with_client, compresses, set_state,
}

unfoldable pub is_set_compression : AnyPacket → Bool
is_set_compression (a_set_compression m) = true
is_set_compression _ = false

-- getSide
abbrev pub get_side : Side
get_side = server_bound

module _ (h : Host) where
  open h use {Cipher, encrypt_update, deflater}

  -- The context behind `encrypt`, and what the local vector of sendData then holds for the write: the
  -- ciphertext, or, where that fails, all of the zeroed vector, since the length -1 is cut to its size. EVP_MAX_BLOCK_LENGTH is 32. A context that
  -- was never set up is the one that EVP_CIPHER_CTX_init leaves, with which an update fails.
  unfoldable pub encrypted_data : Option Cipher → List ℕ → Option Cipher × List ℕ
  encrypted_data none bytes = (none, replicate (length bytes + 32) 0)
  encrypted_data (some context) bytes =
      let call = encrypt_update context bytes in
      (
        some call.context,
        elim call.text [ none ↦ replicate (length bytes + 32) 0 | some cipher_text ↦ cipher_text ],
      )

  -- sendData. The vector of the ciphertext is local, and freed while the write is outstanding.
  unfoldable pub send_data : Turn Cipher → List ℕ → Turn Cipher
  unfolding encrypted_data
  send_data t bytes =
      let (context, cipher_text) = encrypted_data t.client.encrypt_context bytes in
      if not t.client.alive
      then t
      else if t.client.encrypted
      then emit (with_client t (record t.client { encrypt_context = context }))
          (async_write_freed cipher_text)
      else emit t (async_write bytes)

  -- The compression step of sendPacket
  unfoldable pub compress_step : ℕ → Client Cipher → AnyPacket → Outcome Packet
  compress_step fuel c m =
      if compresses c && not (is_set_compression m)
      then compress_if_larger_than deflater fuel (base_of m) c.compression_threshold
      else ok (base_of m)

  -- sendPacket: every packet is serialized for the side of `getSide`.
  unfoldable pub send_packet : ℕ → Turn Cipher → AnyPacket → Outcome (Turn Cipher)
  unfolding send_data compress_step
  send_packet fuel t packet = do
    m ← serialize get_side packet
    p ← compress_step fuel t.client m
    framed ← frame_packet p
    ok (send_data t framed.raw_payload)

  -- The cast of newPacket<LoginSuccessPacket> and the two assignments; a null pointer is undefined.
  unfoldable pub login_success : Client Cipher → Option AnyPacket → Outcome AnyPacket
  login_success c (some (a_login_success m)) =
      ok (a_login_success (record m { uuid = c.userid; username = c.requested_username }))
  login_success c _ = undefined

  -- `if (owner != nullptr) owner->handoffClient(this)`
  unfoldable pub hand_off_to : Turn Cipher → Option Owner → Turn Cipher
  hand_off_to t none = t
  hand_off_to t (some o) = emit t (hand_off o)

  -- onPlayerLogin
  unfoldable pub on_player_login : ℕ → Environment → Turn Cipher → Outcome (Turn Cipher)
  unfolding send_packet login_success hand_off_to
  on_player_login fuel env t = do
    m ← login_success t.client (instantiate_new env client_bound login 0x02)
    t₁ ← send_packet fuel t m
    let t₂ = with_client t₁ (record t₁.client { state = play; last_seen = env.time })
    ok (hand_off_to (emit t₂ timer_wait) t₂.client.owner)
