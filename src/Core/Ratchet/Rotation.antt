-- ===== src/Core/Ratchet/Rotation.antt =====
-- The keys of ratchet.rs over several messages: the ratchet key pair, the first keys of a
-- responder, and the chain after a message that does not open.
use tintin.Prelude.{
  >>=-ok, ◌≡◌, refl, ap, sym, false, ◌∙◌, List, [], ◌∷◌, Result, ok, err, Exec, ◌>>=◌, String, pure,
  arith,
}
use tintin.Core.Crypto.{Bytes, Crypto, Sound}
use tintin.Core.Error.{TinTinError}
use tintin.Core.Keys.{KeyPair}
use tintin.Core.Cipher.{decrypt}
use tintin.Core.Ratchet.{
  Ratchet, RatchetedMessage, encrypt_message, decrypt_message, ratchet_responder, zero_key,
}
use tintin.Core.Ratchet.InSync.{
  Total, after_send, after_receive, sent_message, encrypt_message-sealed, decrypt_message-known,
}

-- What a session does: it sends a text under a nonce, or a message reaches it.
pub data Turn : Type 0 where
  say : Bytes → Bytes → Turn
  hear : RatchetedMessage → Turn

-- the texts that are sent
abbrev pub said : List Turn → List Bytes
said [] = []
said (say fresh text ∷ rest) = text ∷ said rest
said (hear m ∷ rest) = said rest

module _ (c : Crypto) where
  -- Encryption and decryption of any message, also one that asks for a ratchet step, leave the key
  -- pair and the previous count of the ratchet as they are.
  pub ratchet_key_kept :
      (r : Ratchet) (fresh plaintext : Bytes) (m : RatchetedMessage)
      → ((encrypt_message c fresh plaintext r).1.dh_ratchet_key ≡ r.dh_ratchet_key)
        × ((encrypt_message c fresh plaintext r).1.prev_send_count ≡ r.prev_send_count)
        × ((decrypt_message c m r).1.dh_ratchet_key ≡ r.dh_ratchet_key)
        × ((decrypt_message c m r).1.prev_send_count ≡ r.prev_send_count)
  unfolding encrypt_message decrypt_message
  ratchet_key_kept r fresh plaintext m = (ground arith, ground arith, ground arith, ground arith)

  -- Whether or not the message `m` opens, the next message `g` is decrypted under the second key
  -- of the receiving chain, where both come under the ratchet key that is known.
  pub next-after_rejected :
      (b : Ratchet) (m g : RatchetedMessage)
      → m.ratchet_key ≡ b.their_ratchet_key
      → g.ratchet_key ≡ b.their_ratchet_key
      → (decrypt_message c g (decrypt_message c m b).1).0
        ≡ decrypt c g.ciphertext (c.sha256 (1 ∷ c.sha256 (2 ∷ b.recv_chain_key))) g.nonce
  next-after_rejected b m g known known' =
      ap (λ (x : Result TinTinError Bytes × Ratchet). (decrypt_message c g x.1).0)
        (decrypt_message-known c m b known)
      ∙ ap (λ (x : Result TinTinError Bytes × Ratchet). x.0)
          (decrypt_message-known c g (after_receive c b) known')

  -- The messages that go out, one turn after the other; what reaches the session may open or not.
  pub converse : List Turn → Exec Ratchet TinTinError (List RatchetedMessage)
  converse [] = pure []
  converse (say fresh text ∷ rest) = do
    m ← encrypt_message c fresh text
    ms ← converse rest
    pure (m ∷ ms)
  converse (hear m ∷ rest) = λ r. converse rest (decrypt_message c m r).1

  -- Who knows a chain key, and no secret of the two users, opens what follows.
  pub eavesdrop : Bytes → List RatchetedMessage → Result String (List Bytes)
  eavesdrop chain [] = ok []
  eavesdrop chain (m ∷ ms) = elim (c.unseal (c.sha256 (1 ∷ chain)) m.nonce m.ciphertext) [
    | err e ↦ err e
    | ok text ↦ elim (eavesdrop (c.sha256 (2 ∷ chain)) ms) [
      | err e ↦ err e
      | ok texts ↦ ok (text ∷ texts)
    ]
  ]

  -- What a responder hears, ratchet steps included, leaves its sending chain as it is.
  hear_kept :
      (m : RatchetedMessage) (r : Ratchet)
      → r.is_initiator ≡ false
      → ((decrypt_message c m r).1.is_initiator ≡ false)
        × ((decrypt_message c m r).1.send_chain_key ≡ r.send_chain_key)
  unfolding decrypt_message
  hear_kept m r responds = (ground (arith, responds), ground (arith, responds))

module _ (c : Crypto) (total : Total c) (sound : Sound c) where
  converse-eavesdrop :
      (turns : List Turn) (r : Ratchet)
      → r.is_initiator ≡ false
      → (ms : List RatchetedMessage) × ((converse c turns r).0 ≡ ok ms)
        × (eavesdrop c r.send_chain_key ms ≡ ok (said turns))
  unfolding converse eavesdrop
  converse-eavesdrop [] r responds = ([], refl, refl)
  converse-eavesdrop (say fresh text ∷ rest) r responds =
      let (t, sealed) = total.seals (c.sha256 (1 ∷ r.send_chain_key)) fresh text in
      let (ms, sent, open_rest) = converse-eavesdrop rest (after_send c r) responds in
      (
        sent_message c r fresh t ∷ ms,
        ap (λ (x : Result TinTinError (List RatchetedMessage) × Ratchet). x.0)
              (>>=-ok (encrypt_message c fresh text) _
                (encrypt_message-sealed c fresh text t r sealed))
            ∙ rw sent,
        rw (sound.unseal-seal _ _ _ _ sealed, eavesdrop) (rw (open_rest, eavesdrop) refl),
      )
  converse-eavesdrop (hear m ∷ rest) r responds =
      let (still, chain) = hear_kept c m r responds in
      let (ms, sent, opened) = converse-eavesdrop rest (decrypt_message c m r).1 still in
      (ms, sent, ap (λ k. eavesdrop c k ms) (sym chain) ∙ opened)

  -- Where sealing never fails and opening undoes it: a responder sends texts and hears messages in
  -- any order, whoever made the messages, whether they open or not, and also under new ratchet keys.
  -- Every message that it sends opens to who knows the functions of the library alone: its sending
  -- chain starts from 32 zero bytes, whatever secret the two users share, and is never replaced.
  pub replies_open_to_anyone :
      (shared_secret alice_eph_public : Bytes) (pair : KeyPair) (turns : List Turn)
      → (ms : List RatchetedMessage) × ((converse c turns
            (ratchet_responder c shared_secret alice_eph_public pair)).0
          ≡ ok ms)
        × (eavesdrop c zero_key ms ≡ ok (said turns))
  unfolding ratchet_responder
  replies_open_to_anyone shared_secret alice_eph_public pair turns =
      converse-eavesdrop turns (ratchet_responder c shared_secret alice_eph_public pair) refl
