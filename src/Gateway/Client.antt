-- ===== src/Gateway/Client.antt =====
-- Client Gateway/Client.cpp: one connection of a player.
--
-- The handlers are functions from a `Turn` (the client, and what it has asked of the sockets, timers
-- and its owner so far) to the next. The environment gives the time and random values of the call.
pub mod Send
pub mod Auth
pub mod Https
pub mod Login
pub mod Receive
pub mod Timer
pub mod Encrypted
use cerios_cluster.Common.{
  ℕ, zero, suc, ◌+◌, ◌-◌, ◌*◌, ◌/◌, ◌%◌, ◌^◌, List, [], ◌∷◌, ◌++◌, Bool, true, false, ◌&&◌, ltb,
  leb, ◌==◌, Option, none, some, if◌then◌else◌, length, take, drop, replicate,
}
use cerios_cluster.McPacket.Base.{ClientState, handshake}

-- Which class the weak pointer to the owner leads to.
pub data Owner : Type 0 where
  login_server client_server : Owner

-- What a handler asks for, in the order of its calls.
pub data Effect : Type 0 where
  start_read : Effect
  -- A write of the bytes that are in the buffer at the call
  async_write : List ℕ → Effect
  -- A write from a vector that is destroyed when the call returns, before asio reads it: the bytes that
  -- it held at the call. Which bytes the socket gets is not determined.
  async_write_freed : List ℕ → Effect
  socket_cancel : Effect
  -- The cancel, shutdown and close of the socket, and the timer's cancel
  close_socket : Effect
  client_disconnected : Owner → Effect
  -- The keepalive timer is set to so many seconds from now, or waits with the time it has.
  timer_expires_from_now : ℕ → Effect
  timer_wait : Effect
  hand_off : Owner → Effect
  -- The exchange with the session server: connect to it for a request, shake hands, write the
  -- request, read up to an empty line, and read so many bytes more behind those that are there.
  https_connect : (request : List ℕ) → Effect
  https_handshake : (request : List ℕ) → Effect
  https_write : (request : List ℕ) → Effect
  https_read_header : Effect
  https_read_body : (content_length : ℕ) → (held : List ℕ) → Effect

pub record Client (Cipher : Type 0) : Type 0 where
  pub owner : Option Owner
  pub buffer : List ℕ
  pub state : ClientState
  pub compression_threshold : ℕ
  pub encrypt_context : Option Cipher
  pub decrypt_context : Option Cipher
  pub encrypted : Bool
  pub encrypted_buffer : List ℕ
  pub verify_token : List ℕ
  pub requested_username : List ℕ
  pub userid : List ℕ
  pub last_seen : ℕ
  pub alive : Bool
  -- `getSocket()->remote_endpoint().address().is_loopback()`
  pub is_loopback : Bool

pub record Turn (Cipher : Type 0) : Type 0 where
  pub client : Client Cipher
  pub effects : List Effect

-- What disconnect asks for: the socket is closed, and then an owner, if there is one, is told.
unfoldable pub farewell : Option Owner → List Effect
farewell none = close_socket ∷ []
farewell (some o) = close_socket ∷ (client_disconnected o ∷ [])

module _ {Cipher : Type 0} where
  abbrev pub emit : Turn Cipher → Effect → Turn Cipher
  emit t e = record t { effects = t.effects ++ (e ∷ []) }

  abbrev pub with_client : Turn Cipher → Client Cipher → Turn Cipher
  with_client t c = record t { client = c }

  -- disconnect
  unfoldable pub disconnect : Turn Cipher → Turn Cipher
  disconnect t =
      if t.client.alive
      then record {
        client = record t.client { alive = false };
        effects = t.effects ++ farewell t.client.owner;
      }
      else t

  -- onWriteComplete
  unfoldable pub on_write_complete : Turn Cipher → Bool → Turn Cipher
  on_write_complete t error = if error then disconnect t else t

  unfoldable pub set_state : Turn Cipher → ClientState → Turn Cipher
  set_state t state = with_client t (record t.client { state = state })

  -- `std::int32_t compressionThreshold >= 0`
  abbrev pub compresses : Client Cipher → Bool
  compresses c = ltb c.compression_threshold (2 ^ 31)

-- "00000000-0000-0000-0000-000000000000"
abbrev pub nil_uuid : List ℕ
nil_uuid =
    replicate 8 b'0'
    ++ (b'-'
        ∷ (replicate 4 b'0'
            ++ (b'-'
                ∷ (replicate 4 b'0' ++ (b'-' ∷ (replicate 4 b'0' ++ (b'-' ∷ replicate 12 b'0')))))))

-- The constructor, which starts to read.
unfoldable pub new_client :
    {Cipher : Type 0} → Owner → (is_loopback : Bool) → (now : ℕ) → List ℕ → Turn Cipher
new_client owner is_loopback now stale_token = record {
  client = record {
    owner = some owner;
    buffer = [];
    state = handshake;
    compression_threshold = 2 ^ 32 - 1;
    encrypt_context = none;
    decrypt_context = none;
    encrypted = false;
    encrypted_buffer = [];
    verify_token = stale_token;
    requested_username = [];
    userid = nil_uuid;
    last_seen = now;
    alive = true;
    is_loopback = is_loopback;
  };
  effects = start_read ∷ [];
}
