-- ===== src/Core/Keys.antt =====
-- tintin-core/src/keys.rs. What the random generator yields is an argument.
use tintin.Prelude.{ℕ, Bool, not, ◌&&◌, ◌++◌, Result, ok, length, ◌==◌, number_eq}
use tintin.Core.Crypto.{Bytes, Crypto}
use tintin.Core.Error.{TinTinError}

pub record KeyPair : Type 0 where
  pub secret : Bytes
  pub public : Bytes

pub record IdentityKeyPair : Type 0 where
  pub key_pair : KeyPair

pub record SignedPreKey : Type 0 where
  pub id : ℕ
  pub key_pair : KeyPair
  pub signature : Bytes

pub record OneTimePreKey : Type 0 where
  pub id : ℕ
  pub key_pair : KeyPair

-- `signature.is_empty()`
is_empty : Bytes → Bool
is_empty signature = length signature == 0

-- The identity's public key and the signed key are not looked at.
unfoldable pub verify_signature : Bytes → Bytes → Bytes → Bool
unfolding is_empty
verify_signature identity_public signed signature =
    not (is_empty signature) && length signature == 64

module _ (c : Crypto) where
  -- `secret` is what `random_from_rng(OsRng)` drew
  unfoldable pub generate_key_pair : Bytes → KeyPair
  generate_key_pair secret = record { secret = secret; public = c.public_of secret }

  unfoldable pub agree : KeyPair → Bytes → Result TinTinError Bytes
  agree pair their_public = ok (c.diffie_hellman pair.secret their_public)

  unfoldable pub sign_identity : IdentityKeyPair → Bytes → Bytes
  sign_identity identity signed = c.sha512 (identity.key_pair.secret ++ signed)

  unfoldable pub generate_identity : Bytes → IdentityKeyPair
  unfolding generate_key_pair
  generate_identity secret = record { key_pair = generate_key_pair secret }

  unfoldable pub generate_signed_pre_key : ℕ → IdentityKeyPair → Bytes → SignedPreKey
  unfolding generate_key_pair sign_identity
  generate_signed_pre_key id identity secret = record {
    id = id;
    key_pair = generate_key_pair secret;
    signature = sign_identity identity (generate_key_pair secret).public;
  }

  unfoldable pub generate_one_time_pre_key : ℕ → Bytes → OneTimePreKey
  unfolding generate_key_pair
  generate_one_time_pre_key id secret = record { id = id; key_pair = generate_key_pair secret }

unfoldable pub verify_signed_pre_key : SignedPreKey → Bytes → Bool
unfolding verify_signature
verify_signed_pre_key pre_key identity_public =
    verify_signature identity_public pre_key.key_pair.public pre_key.signature
