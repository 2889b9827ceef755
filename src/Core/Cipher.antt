-- ===== src/Core/Cipher.antt =====
-- tintin-core/src/cipher.rs. The nonce that `fill_bytes` draws is an argument of `encrypt`.
use Prim.Native.String.{◌++◌ as append}
use tintin.Prelude.{String, some, none, Result, ok, err, take, drop}
use tintin.Core.Crypto.{Bytes, codes, Crypto}
use tintin.Core.Error.{TinTinError, encryption_failed, decryption_failed}

-- `map_err` with the label of the cipher
unfoldable pub labelled :
    {A : Type 0} → (String → TinTinError) → Result String A → Result TinTinError A
labelled wrap (ok a) = ok a
labelled wrap (err e) = err (wrap (append "ChaCha20Poly1305: " e))

module _ (c : Crypto) where
  -- the 64 bytes of output key material, split in two keys
  halves : Bytes → Bytes × Bytes
  halves okm = (take 32 okm, drop 32 okm)

  unfoldable pub derive_keys : Bytes → Bytes → Bytes × Bytes
  unfolding halves
  derive_keys ikm salt = halves (c.hkdf_expand (some salt) ikm (codes "tintin-message-keys") 64)

  unfoldable pub derive_chain_keys : Bytes → Bytes → Bytes × Bytes
  unfolding halves
  derive_chain_keys root_key dh_output = halves (c.hkdf_expand none root_key dh_output 64)

  -- the ciphertext and the nonce
  unfoldable pub encrypt : Bytes → Bytes → Bytes → Result TinTinError (Bytes × Bytes)
  unfolding labelled
  encrypt nonce plaintext key = elim (labelled encryption_failed (c.seal key nonce plaintext)) [
    | ok ciphertext ↦ ok (ciphertext, nonce)
    | err e ↦ err e
  ]

  unfoldable pub decrypt : Bytes → Bytes → Bytes → Result TinTinError Bytes
  unfolding labelled
  decrypt ciphertext key nonce = labelled decryption_failed (c.unseal key nonce ciphertext)
