-- ===== src/Examples.antt =====
-- Concrete inputs at which the properties are applied: an environment, and a stand-in for each library.
pub mod Numbers
pub mod Packets
pub mod Comms
pub mod Connection
pub mod Servers
pub mod Sessions
pub mod Remote
pub mod Ciphers
pub mod Running
pub mod EventLoop
use cerios_cluster.Common.{
  ℕ, List, [], ◌∷◌, ◌^◌, ◌-◌, Bool, true, false, Option, none, some, replicate,
}
use cerios_cluster.McPacket.Base.{Environment, Packet, ClientState}
use cerios_cluster.McPacket.Parse.{Zlib}
use cerios_cluster.McPacket.Compress.{Deflater, stream_end}
use cerios_cluster.Gateway.Host.{Host}
use cerios_cluster.Gateway.Client.{Client, Turn, login_server, nil_uuid}

abbrev pub an_environment : Environment
an_environment = record {
  time = 100;
  random = 7;
  stale = λ n. n;
  wide_shift = λ a b. 0;
  resolves = true;
}

-- A zlib that starts on every input and never reports an error
abbrev pub a_zlib : Zlib
a_zlib = record {
  Stream = Unit {0};
  inflate_init = λ bytes. some tt;
  inflate = λ s offset output. record { stream = tt; output = output; stream_error = false };
}

-- A deflater that writes one byte and is done
abbrev pub a_deflater : Deflater
a_deflater = record {
  Stream = Unit {0};
  deflate_init = λ bytes. some tt;
  deflate = λ s room. record { stream = tt; output = 9 ∷ []; avail_in = 0; code = stream_end };
}

abbrev pub a_host : Host
a_host = record {
  Cipher = Unit {0};
  encrypt_update = λ c bytes. record { context = tt; text = some bytes };
  decrypt_update = λ c bytes. record { context = tt; text = some bytes };
  cipher_init = λ key. tt;
  sha1 = λ bytes. 200 ∷ replicate 19 1;
  sha256 = λ bytes. replicate 32 171;
  rsa_decrypt = λ bytes. some bytes;
  public_key = 1 ∷ 2 ∷ 3 ∷ [];
  player_info = λ bytes. none;
  inflater = a_zlib;
  deflater = a_deflater;
}

-- An open connection in the clear, in a state, last heard of at the time 95
abbrev pub a_turn : ClientState → Turn (Unit {0})
a_turn state = record {
  client = record {
    owner = some login_server;
    buffer = [];
    state = state;
    compression_threshold = 2 ^ 32 - 1;
    encrypt_context = none;
    decrypt_context = none;
    encrypted = false;
    encrypted_buffer = [];
    verify_token = 1 ∷ 2 ∷ 3 ∷ 4 ∷ [];
    requested_username = b'B' ∷ b'o' ∷ b'b' ∷ [];
    userid = nil_uuid;
    last_seen = 95;
    alive = true;
    is_loopback = false;
  };
  effects = [];
}

abbrev pub a_packet : ℕ → Packet
a_packet id = record { packet_id = id; raw_payload = []; compressed = false }
