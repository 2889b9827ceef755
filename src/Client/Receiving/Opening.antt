-- ===== src/Client/Receiving/Opening.antt =====
-- The first message of a session, between the sessions of two clients.
use tintin.Prelude.{ℕ, ◌≡◌, refl, ◌∙◌, ap, String, List, [], ◌∷◌, ◌++◌, ok}
use tintin.Core.Crypto.{Bytes, Crypto, Sound}
use tintin.Core.Keys.{IdentityKeyPair, SignedPreKey, generate_signed_pre_key, agree}
use tintin.Core.Message.{SessionMessage}
use tintin.Core.Ratchet.InSync.{
  Total, after_send, after_receive, encrypt_message-Link, decrypt_message-Link,
}
use tintin.Core.Session.{
  Session, session_initiator, session_responder, session_encrypt, session_decrypt,
}
use tintin.Core.Session.Delivery.Flow.{handshake}

same_head : (x y : Bytes) (rest : List Bytes) → x ∷ [] ≡ y ∷ rest → y ≡ x
same_head x y rest e = cc

module _ (c : Crypto) (total : Total c) (sound : Sound c) where
  -- Agreement never fails, so there is always a session.
  pub initiated :
      (secret : Bytes) (identity : IdentityKeyPair) (peer : String) (device : ℕ)
      (their_identity spk : Bytes)
      → (s : Session) × (session_initiator c secret identity peer device their_identity spk ≡ ok s)
        × (s.remote_user_id ≡ peer)
        × (s.remote_device_id ≡ device)
  unfolding session_initiator agree
  initiated secret identity peer device their_identity spk = (_, refl, refl, refl)

  pub responded :
      (identity : IdentityKeyPair) (peer : String) (device : ℕ) (their_identity eph : Bytes)
      (spk : SignedPreKey)
      → (s : Session) × (session_responder c identity peer device their_identity eph spk ≡ ok s)
        × (s.remote_user_id ≡ peer)
        × (s.remote_device_id ≡ device)
  unfolding session_responder agree
  responded identity peer device their_identity eph spk = (_, refl, refl, refl)

  -- What the opening session encrypts, the answering session opens.
  pub opening_opens :
      (secret spk_secret : Bytes) (alice_identity bob_identity : IdentityKeyPair)
      (alice_id bob_id : String) (alice_device bob_device spk_id : ℕ)
      (their_alice their_bob nonce text : Bytes) (a b : Session)
      → session_initiator c secret alice_identity bob_id bob_device their_bob
          (generate_signed_pre_key c spk_id bob_identity spk_secret).key_pair.public
        ≡ ok a
      → session_responder c bob_identity alice_id alice_device their_alice
          a.ratchet.dh_ratchet_key.public
          (generate_signed_pre_key c spk_id bob_identity spk_secret)
        ≡ ok b
      → (m : SessionMessage) × (session_encrypt c nonce text a
          ≡ (ok m, record a { ratchet = after_send c a.ratchet }))
        × (session_decrypt c m b ≡ (ok text, record b { ratchet = after_receive c b.ratchet }))
  unfolding session_encrypt session_decrypt
  opening_opens es ss ai bi an bn ad bd sid ta tb nonce text a b ha hb =
      let flow = (handshake c total sound es ss ai bi an bn ad bd sid ta tb a b ha hb).to_bob in
      let (m, sent, link) =
        encrypt_message-Link c total sound a.ratchet b.ratchet [] flow.pending nonce text
          flow.link in
      let (text', rest, split, read, link') =
        decrypt_message-Link c total sound (after_send c a.ratchet) b.ratchet
          (record m { previous_count = 0 }) [] (flow.pending ++ text ∷ []) link in
      let only : text' ≡ text =
        same_head text text' rest (ap (λ (p : List Bytes). p ++ text ∷ []) flow.all ∙ split) in
      let message : SessionMessage = record {
        version = a.version;
        ciphertext = m.ciphertext;
        nonce = m.nonce;
        ratchet_key = m.ratchet_key;
        message_number = m.message_number;
      } in
      (
        message,
        rw (sent, session_encrypt) refl,
        rw (read, session_decrypt)
            (ap (λ (t : Bytes). (ok t, record b { ratchet = after_receive c b.ratchet })) only),
      )
