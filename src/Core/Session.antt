-- ===== src/Core/Session.antt =====
-- tintin-core/src/session.rs: sessions between two users, and the store of a user's sessions.
pub mod Delivery
pub mod Lookup
use tintin.Prelude.{
  ℕ, ◌≡◌, refl, Bool, true, false, not, ◌&&◌, String, List, [], ◌∷◌, ◌++◌, Option, Result, ok, err,
  Exec, length, ◌==◌, number_eq, text_eq, continue,
}
use tintin.Prelude.Rows.{delete, find}
use tintin.Core.Crypto.{Bytes, Crypto}
use tintin.Core.Error.{TinTinError}
use tintin.Core.Keys.{KeyPair, IdentityKeyPair, SignedPreKey, agree, generate_key_pair}
use tintin.Core.Message.{SessionMessage}
use tintin.Core.Ratchet.{
  Ratchet, RatchetedMessage, ratchet_initiator, ratchet_responder, encrypt_message, decrypt_message,
}

pub data SessionRole : Type 0 where
  initiator responder : SessionRole

pub record Session : Type 0 where
  pub remote_user_id : String
  pub remote_device_id : ℕ
  pub role : SessionRole
  pub our_identity : IdentityKeyPair
  pub their_identity : Bytes
  pub ratchet : Ratchet
  pub version : ℕ

-- lib.rs
abbrev pub protocol_version : ℕ
protocol_version = 1

-- the session's message for the ratchet's
abbrev wrap : Session → Result TinTinError RatchetedMessage → Result TinTinError SessionMessage
wrap s (err e) = err e
wrap s (ok ratcheted) = ok (record {
  version = s.version;
  ciphertext = ratcheted.ciphertext;
  nonce = ratcheted.nonce;
  ratchet_key = ratcheted.ratchet_key;
  message_number = ratcheted.message_number;
})

-- the ratchet's message for the session's
abbrev pub unwrap : SessionMessage → RatchetedMessage
unwrap message = record {
  ratchet_key = message.ratchet_key;
  ciphertext = message.ciphertext;
  nonce = message.nonce;
  message_number = message.message_number;
  previous_count = 0;
}

module _ (c : Crypto) where
  -- `secret` is what the generator of the ephemeral key draws
  unfoldable pub session_initiator :
      Bytes → IdentityKeyPair → String → ℕ → Bytes → Bytes → Result TinTinError Session
  unfolding generate_key_pair agree ratchet_initiator
  session_initiator secret our_identity remote_user_id remote_device_id their_identity_key spk =
      let eph_key = generate_key_pair c secret in
      elim (agree c eph_key spk) [
        | err e ↦ err e
        | ok shared_secret ↦ ok (record {
          remote_user_id = remote_user_id;
          remote_device_id = remote_device_id;
          role = initiator;
          our_identity = our_identity;
          their_identity = their_identity_key;
          ratchet = ratchet_initiator c shared_secret eph_key spk;
          version = protocol_version;
        })
      ]

  unfoldable pub session_responder :
      IdentityKeyPair → String → ℕ → Bytes → Bytes → SignedPreKey → Result TinTinError Session
  unfolding agree ratchet_responder
  session_responder our_identity remote_user_id remote_device_id their_identity_key eph spk =
      elim (agree c spk.key_pair eph) [
        | err e ↦ err e
        | ok shared_secret ↦ ok (record {
          remote_user_id = remote_user_id;
          remote_device_id = remote_device_id;
          role = responder;
          our_identity = our_identity;
          their_identity = their_identity_key;
          ratchet = ratchet_responder c shared_secret eph spk.key_pair;
          version = protocol_version;
        })
      ]

  unfoldable pub session_encrypt : Bytes → Bytes → Exec Session TinTinError SessionMessage
  session_encrypt fresh plaintext s =
      let (sent, ratchet') = encrypt_message c fresh plaintext s.ratchet in
      (wrap s sent, record s { ratchet = ratchet' })

  unfoldable pub session_decrypt : SessionMessage → Exec Session TinTinError Bytes
  session_decrypt message s =
      let (read, ratchet') = decrypt_message c (unwrap message) s.ratchet in
      (read, record s { ratchet = ratchet' })

pub record SessionStore : Type 0 where
  pub sessions : List Session

abbrev pub empty_store : SessionStore
empty_store = record { sessions = [] }

-- the test that `get`, `add` and `remove` make
abbrev pub is_for : String → ℕ → Session → Bool
is_for user device s = s.remote_user_id == user && s.remote_device_id == device

-- `get`, and what `get_mut` refers to
unfoldable pub get : SessionStore → String → ℕ → Option Session
get store user device = find (is_for user device) store.sessions

-- `retain(|s| !…)` drops what the test accepts
unfoldable pub remove : SessionStore → String → ℕ → SessionStore
remove store user device = record { sessions = delete (is_for user device) store.sessions }

unfoldable pub add : SessionStore → Session → SessionStore
unfolding remove
add store session = record {
  sessions =
      delete (is_for session.remote_user_id session.remote_device_id) store.sessions
      ++ session ∷ [];
}

pub len : SessionStore → ℕ
len store = length store.sessions
