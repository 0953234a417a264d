-- ===== src/Gateway/Host.antt =====
-- What the client gateway uses of its libraries: OpenSSL, zlib, rapidjson and the random engine. They
-- are the fields of one record, which the gateway's functions take as a parameter.
use cerios_cluster.Common.{ℕ, List, Option}
use cerios_cluster.McPacket.Parse.{Zlib}
use cerios_cluster.McPacket.Compress.{Deflater}

pub record Host : Type 1 where
  -- EVP_EncryptUpdate and EVP_DecryptUpdate; none is a return value other than 1.
  pub Cipher : Type 0
  pub encrypt_update : Cipher → List ℕ → record { context : Cipher; text : Option (List ℕ) }
  pub decrypt_update : Cipher → List ℕ → record { context : Cipher; text : Option (List ℕ) }
  -- EVP_EncryptInit_ex and EVP_DecryptInit_ex with EVP_aes_128_cfb_8; the key is also the IV.
  pub cipher_init : List ℕ → Cipher
  pub sha1 : List ℕ → List ℕ
  pub sha256 : List ℕ → List ℕ
  -- The EVP_PKEY_decrypt of the server's key pair; none is an error of any of its calls.
  pub rsa_decrypt : List ℕ → Option (List ℕ)
  -- i2d_PUBKEY of that key pair
  pub public_key : List ℕ
  -- The members "id" and "name" of a JSON text, if it has both as strings.
  pub player_info : List ℕ → Option (List ℕ × List ℕ)
  pub inflater : Zlib
  pub deflater : Deflater
