-- ===== src/Gateway/Client/Login/Token.antt =====
-- receivedMessage of Client Gateway/Client.cpp: the answer to the encryption request that has the token
-- of its client.
use cerios_cluster.Common.{ℕ, List, some}
use cerios_cluster.Gateway.Host.{Host}
use cerios_cluster.Gateway.Client.{Turn, with_client}

module _ (h : Host) where
  open h use {Cipher, rsa_decrypt, cipher_init, sha1, public_key}

  -- The client with both keys set up
  abbrev pub keyed : Turn Cipher → (secret : List ℕ) → Turn Cipher
  keyed t secret = with_client t (record t.client {
    encrypt_context = some (cipher_init secret);
    decrypt_context = some (cipher_init secret);
  })
