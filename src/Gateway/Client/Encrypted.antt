-- ===== src/Gateway/Client/Encrypted.antt =====
-- Two reads of a client in encrypted mode (Client Gateway/Client.cpp).
use cerios_cluster.Common.{
  ℕ, ◌/◌, ◌*◌, ◌^◌, List, ◌++◌, append_assoc, true, some, length, take, ◌≡◌, refl, ◌∙◌, ap,
}
use cerios_cluster.Common.Outcome.{Outcome, ok, ◌>>=◌}
use cerios_cluster.Gateway.Host.{Host}
use cerios_cluster.Gateway.Client.{Client}
use cerios_cluster.Gateway.Client.Receive.{append_clear, decrypted, take_data}

-- The whole blocks of 16 bytes in front
abbrev pub whole_blocks : List ℕ → List ℕ
whole_blocks bytes = take (length bytes / 2 ^ 4 * 2 ^ 4) bytes

module _ (h : Host) where
  open h use {Cipher, decrypt_update, encrypt_update}

  -- The client after its cipher has made `clear` of the bytes that it holds
  abbrev pub read_on : Client Cipher → (held : List ℕ) → Cipher → (clear : List ℕ) → Client Cipher
  read_on c held context clear = record c {
    encrypted_buffer = held;
    decrypt_context = some context;
    buffer = c.buffer ++ clear;
  }

  decrypted_text :
      (c : Client Cipher) (bytes : List ℕ) (k k' : Cipher) (clear : List ℕ)
      → (decrypt_update k bytes).context ≡ k'
      → (decrypt_update k bytes).text ≡ some clear
      → decrypted h c (some k) bytes
        ≡ ok (record c { decrypt_context = some k'; buffer = c.buffer ++ clear })
  unfolding decrypted append_clear
  decrypted_text c bytes k k' clear x t =
      ap
        (λ text.
          append_clear h (record c { decrypt_context = some (decrypt_update k bytes).context })
            text)
        t
      ∙ ap (λ (w : Cipher). ok (record c { decrypt_context = some w; buffer = c.buffer ++ clear }))
          x

  take_data_on :
      (c : Client Cipher) (bytes : List ℕ)
      → c.encrypted ≡ true
      → take_data h c bytes
        ≡ decrypted h
            (record c { encrypted_buffer = c.encrypted_buffer ++ bytes })
            c.decrypt_context
            (whole_blocks (c.encrypted_buffer ++ bytes))
  unfolding take_data
  take_data_on c bytes e = rw e refl

  take_data_encrypted :
      (c : Client Cipher) (bytes : List ℕ) (k k' : Cipher) (clear : List ℕ)
      → c.encrypted ≡ true
      → c.decrypt_context ≡ some k
      → (decrypt_update k (whole_blocks (c.encrypted_buffer ++ bytes))).context ≡ k'
      → (decrypt_update k (whole_blocks (c.encrypted_buffer ++ bytes))).text ≡ some clear
      → take_data h c bytes ≡ ok (read_on c (c.encrypted_buffer ++ bytes) k' clear)
  take_data_encrypted c bytes k k' clear e d x t =
      take_data_on c bytes e
      ∙ ap
          (λ context.
            decrypted h (record c { encrypted_buffer = c.encrypted_buffer ++ bytes }) context
              (whole_blocks (c.encrypted_buffer ++ bytes)))
          d
      ∙ decrypted_text (record c { encrypted_buffer = c.encrypted_buffer ++ bytes })
          (whole_blocks (c.encrypted_buffer ++ bytes)) k k' clear x t

  -- In encrypted mode nothing of what has arrived is ever dropped: where both decryptions succeed, a
  -- second read gives the cipher, which has gone on, all whole blocks from the first byte on again, and
  -- puts what it makes of them behind the clear text of the first read.
  pub take_data_twice :
      (c : Client Cipher) (first second : List ℕ) (k₀ k₁ k₂ : Cipher) (clear₁ clear₂ : List ℕ)
      → c.encrypted ≡ true
      → c.decrypt_context ≡ some k₀
      → (decrypt_update k₀ (whole_blocks (c.encrypted_buffer ++ first))).context ≡ k₁
      → (decrypt_update k₀ (whole_blocks (c.encrypted_buffer ++ first))).text ≡ some clear₁
      → (decrypt_update k₁ (whole_blocks ((c.encrypted_buffer ++ first) ++ second))).context ≡ k₂
      → (decrypt_update k₁ (whole_blocks ((c.encrypted_buffer ++ first) ++ second))).text
        ≡ some clear₂
      → (take_data h c first >>= λ c'. take_data h c' second)
        ≡ ok (read_on c ((c.encrypted_buffer ++ first) ++ second) k₂ ((clear₁ ++ clear₂)))
  take_data_twice c first second k₀ k₁ k₂ clear₁ clear₂ e d x₁ t₁ x₂ t₂ =
      ap (λ (m : Outcome (Client Cipher)). m >>= λ c'. take_data h c' second)
        (take_data_encrypted c first k₀ k₁ clear₁ e d x₁ t₁)
      ∙ take_data_encrypted (read_on c (c.encrypted_buffer ++ first) k₁ clear₁) second k₁ k₂ clear₂
          e refl x₂ t₂
      ∙ ap
          (λ (buffer : List ℕ). ok (record c {
            encrypted_buffer = (c.encrypted_buffer ++ first) ++ second;
            decrypt_context = some k₂;
            buffer = buffer;
          }))
          (append_assoc c.buffer clear₁ clear₂)
