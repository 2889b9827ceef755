-- ===== src/Core/Ratchet.antt =====
-- tintin-core/src/ratchet.rs. Methods on `&mut self` return the new state beside their result;
-- the counters are u32 and wrap around.
pub mod InSync
pub mod Rotation
use tintin.Prelude.{
  ℕ, ◌+◌, ◌-◌, ◌%◌, ◌^◌, ◌≡◌, refl, Bool, true, false, List, [], ◌∷◌, Result, ok, err, Exec, lift,
  if◌then◌else◌, ◌==◌, ◌>>=◌,
}
use tintin.Core.Crypto.{Bytes, Crypto, bytes_eq}
use tintin.Core.Error.{TinTinError}
use tintin.Core.Keys.{KeyPair, agree}
use tintin.Core.Cipher.{derive_chain_keys, encrypt, decrypt}

pub record Ratchet : Type 0 where
  pub dh_ratchet_key : KeyPair
  pub their_ratchet_key : Bytes
  pub root_key : Bytes
  pub send_chain_key : Bytes
  pub recv_chain_key : Bytes
  pub send_msg_number : ℕ
  pub recv_msg_number : ℕ
  pub prev_send_count : ℕ
  pub max_skip : ℕ
  pub is_initiator : Bool

pub record RatchetedMessage : Type 0 where
  pub ratchet_key : Bytes
  pub ciphertext : Bytes
  pub nonce : Bytes
  pub message_number : ℕ
  pub previous_count : ℕ

-- `[0u8; 32]`
abbrev pub zero_key : Bytes
zero_key =
    0 ∷ 0 ∷ 0 ∷ 0 ∷ 0 ∷ 0 ∷ 0 ∷ 0 ∷ 0 ∷ 0 ∷ 0 ∷ 0 ∷ 0 ∷ 0 ∷ 0 ∷ 0 ∷ 0 ∷ 0 ∷ 0 ∷ 0 ∷ 0 ∷ 0 ∷ 0 ∷ 0
    ∷ 0 ∷ 0 ∷ 0 ∷ 0 ∷ 0 ∷ 0 ∷ 0 ∷ 0 ∷ []

abbrev pub u32_mod : ℕ
u32_mod = 2 ^ 32

module _ (c : Crypto) where
  -- the next chain key and the message key
  unfoldable pub ratchet_chain_key : Bytes → Bytes × Bytes
  ratchet_chain_key chain_key = (c.sha256 (2 ∷ chain_key), c.sha256 (1 ∷ chain_key))

  unfoldable pub ratchet_initiator : Bytes → KeyPair → Bytes → Ratchet
  ratchet_initiator shared_secret eph_key bob_signed_pre_key =
      let (root_key, chain_key) = derive_chain_keys c shared_secret eph_key.public in
      record {
        dh_ratchet_key = eph_key;
        their_ratchet_key = bob_signed_pre_key;
        root_key = root_key;
        send_chain_key = chain_key;
        recv_chain_key = zero_key;
        send_msg_number = 0;
        recv_msg_number = 0;
        prev_send_count = 0;
        max_skip = 100;
        is_initiator = true;
      }

  unfoldable pub ratchet_responder : Bytes → Bytes → KeyPair → Ratchet
  ratchet_responder shared_secret alice_eph_public our_identity_key =
      let (root_key, chain_key) = derive_chain_keys c shared_secret alice_eph_public in
      record {
        dh_ratchet_key = our_identity_key;
        their_ratchet_key = alice_eph_public;
        root_key = root_key;
        send_chain_key = zero_key;
        recv_chain_key = chain_key;
        send_msg_number = 0;
        recv_msg_number = 0;
        prev_send_count = 0;
        max_skip = 100;
        is_initiator = false;
      }

  unfoldable pub next_send_key : Exec Ratchet TinTinError Bytes
  unfolding ratchet_chain_key
  next_send_key r =
      let (new_chain, msg_key) = ratchet_chain_key r.send_chain_key in
      (
        ok msg_key,
        record r {
          send_chain_key = new_chain;
          send_msg_number = (r.send_msg_number + 1) % u32_mod;
        },
      )

  unfoldable pub next_recv_key : Exec Ratchet TinTinError Bytes
  unfolding ratchet_chain_key
  next_recv_key r =
      let (new_chain, msg_key) = ratchet_chain_key r.recv_chain_key in
      (
        ok msg_key,
        record r {
          recv_chain_key = new_chain;
          recv_msg_number = (r.recv_msg_number + 1) % u32_mod;
        },
      )

  -- `agree` never fails, so that `expect` never panics: on the other branch nothing changes here.
  unfoldable pub dh_ratchet_step : Ratchet → Ratchet
  unfolding agree
  dh_ratchet_step r = elim (agree c r.dh_ratchet_key r.their_ratchet_key) [
    | ok dh_output ↦
        let (new_root, new_chain) = derive_chain_keys c r.root_key dh_output in
        record r {
          root_key = new_root;
          send_chain_key = if r.is_initiator then new_chain else r.send_chain_key;
          recv_chain_key = if r.is_initiator then r.recv_chain_key else new_chain;
          send_msg_number = 0;
          recv_msg_number = 0;
        }
    | err e ↦ r
  ]

  -- the first argument is the nonce that the random generator yields
  unfoldable pub encrypt_message : Bytes → Bytes → Exec Ratchet TinTinError RatchetedMessage
  unfolding next_send_key encrypt
  encrypt_message fresh plaintext = do
    msg_key ← next_send_key
    (ciphertext, nonce) ← lift (encrypt c fresh plaintext msg_key)
    λ r. (
      ok (record {
        ratchet_key = r.dh_ratchet_key.public;
        ciphertext = ciphertext;
        nonce = nonce;
        message_number = (r.send_msg_number + u32_mod - 1) % u32_mod;
        previous_count = r.prev_send_count;
      }),
      r,
    )

  -- the ratchet step of a message under another key than the one known
  unfoldable pub follow_ratchet_key : Bytes → Ratchet → Ratchet
  unfolding dh_ratchet_step
  follow_ratchet_key key r =
      if key == r.their_ratchet_key
      then r
      else dh_ratchet_step (record r { their_ratchet_key = key })

  unfoldable pub decrypt_message : RatchetedMessage → Exec Ratchet TinTinError Bytes
  unfolding follow_ratchet_key next_recv_key decrypt
  decrypt_message msg r =
      (do msg_key ← next_recv_key; lift (decrypt c msg.ciphertext msg_key msg.nonce))
        (follow_ratchet_key msg.ratchet_key r)
