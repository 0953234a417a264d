-- ===== src/Examples/Ciphers.antt =====
-- The properties of encrypted mode, applied, with a cipher that leaves the bytes as they are.
use cerios_cluster.Common.{ℕ, List, ◌++◌, true, some, replicate, ◌≡◌, refl}
use cerios_cluster.Common.Outcome.{ok, ◌>>=◌}
use cerios_cluster.McPacket.Base.{play}
use cerios_cluster.Examples.{a_host, a_turn}
use cerios_cluster.Gateway.Client.{Turn}
use cerios_cluster.Gateway.Client.Receive.{take_data}
use cerios_cluster.Gateway.Client.Encrypted.{read_on, take_data_twice}

abbrev a_block : ℕ → List ℕ
a_block byte = replicate 16 byte

-- A player with encryption on
abbrev a_secret_turn : Turn (Unit {0})
a_secret_turn = record (a_turn play) {
  client = record (a_turn play).client {
    encrypted = true;
    encrypt_context = some tt;
    decrypt_context = some tt;
  };
}

-- The first block is read twice.
take_data_twice_example :
    (take_data a_host a_secret_turn.client (a_block 1) >>= λ c. take_data a_host c (a_block 2))
    ≡ ok (
        read_on a_host a_secret_turn.client
          (a_block 1 ++ a_block 2)
          tt
          (a_block 1 ++ (a_block 1 ++ a_block 2)))
take_data_twice_example =
    take_data_twice a_host a_secret_turn.client (a_block 1) (a_block 2) tt tt tt (a_block 1)
      (a_block 1 ++ a_block 2) refl refl refl refl refl refl
