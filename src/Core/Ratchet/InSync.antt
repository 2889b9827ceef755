-- ===== src/Core/Ratchet/InSync.antt =====
-- Two ratchets that are in step: what one has sent and the other has not read yet opens, in order,
-- under the keys that the reader will derive.
use tintin.Prelude.{◌+◌, ◌-◌, ◌%◌, ◌≡◌, refl, sym, ◌∙◌, List, [], ◌∷◌, ◌++◌, ok, beq_refl}
use tintin.Core.Crypto.{Bytes, Crypto, Sound, bytes_eq}
use tintin.Core.Cipher.{encrypt, decrypt, labelled}
use tintin.Core.Ratchet.{u32_mod, Ratchet, RatchetedMessage, encrypt_message, decrypt_message}

-- chacha20poly1305 refuses no text of a length that fits in memory.
pub record Total (c : Crypto) : Type 0 where
  pub seals : (key nonce plaintext : Bytes) → (t : Bytes) × (c.seal key nonce plaintext ≡ ok t)

module _ (c : Crypto) where
  -- From the reader's chain on, the messages of the queue open to the texts, in order; after the
  -- last one the chain is the writer's.
  abbrev pub Carried : Bytes → Bytes → List Bytes → List RatchetedMessage → Bytes → Type 0
  Carried key chain [] [] final = chain ≡ final
  Carried key chain [] (m ∷ ms) final = ⊥
  Carried key chain (p ∷ ps) [] final = ⊥
  Carried key chain (p ∷ ps) (m ∷ ms) final =
      (m.ratchet_key ≡ key)
      × (c.unseal (c.sha256 (1 ∷ chain)) m.nonce m.ciphertext ≡ ok p)
      × Carried key (c.sha256 (2 ∷ chain)) ps ms final

  -- One direction of a conversation: `pending` are the texts under way.
  pub record Link (a b : Ratchet) (queue : List RatchetedMessage) (pending : List Bytes)
      : Type 0 where
    pub known : b.their_ratchet_key ≡ a.dh_ratchet_key.public
    pub carried : Carried a.dh_ratchet_key.public b.recv_chain_key pending queue a.send_chain_key

  Carried-append :
      (key chain : Bytes) (ps : List Bytes) (ms : List RatchetedMessage) (final : Bytes) (p : Bytes)
      (m : RatchetedMessage)
      → Carried key chain ps ms final
      → m.ratchet_key ≡ key
      → c.unseal (c.sha256 (1 ∷ final)) m.nonce m.ciphertext ≡ ok p
      → Carried key chain (ps ++ p ∷ []) (ms ++ m ∷ []) (c.sha256 (2 ∷ final))
  Carried-append key chain [] [] final p m h k u = rw h (k, u, refl)
  Carried-append key chain [] (x ∷ ms) final p m h k u = absurd h
  Carried-append key chain (q ∷ ps) [] final p m h k u = absurd h
  Carried-append key chain (q ∷ ps) (x ∷ ms) final p m h k u =
      (h.0, h.1, Carried-append key (c.sha256 (2 ∷ chain)) ps ms final p m h.2 k u)

module _ (c : Crypto) where
  abbrev pub after_send : Ratchet → Ratchet
  after_send a = record a {
    send_chain_key = c.sha256 (2 ∷ a.send_chain_key);
    send_msg_number = (a.send_msg_number + 1) % u32_mod;
  }

  abbrev pub after_receive : Ratchet → Ratchet
  after_receive b = record b {
    recv_chain_key = c.sha256 (2 ∷ b.recv_chain_key);
    recv_msg_number = (b.recv_msg_number + 1) % u32_mod;
  }

  abbrev pub sent_message : Ratchet → Bytes → Bytes → RatchetedMessage
  sent_message a nonce text = record {
    ratchet_key = a.dh_ratchet_key.public;
    ciphertext = text;
    nonce = nonce;
    message_number = ((a.send_msg_number + 1) % u32_mod + u32_mod - 1) % u32_mod;
    previous_count = a.prev_send_count;
  }

  pub encrypt_message-sealed :
      (fresh plaintext text : Bytes) (a : Ratchet)
      → c.seal (c.sha256 (1 ∷ a.send_chain_key)) fresh plaintext ≡ ok text
      → encrypt_message c fresh plaintext a ≡ (ok (sent_message a fresh text), after_send a)
  unfolding encrypt_message
  encrypt_message-sealed fresh plaintext text a h = rw (h, encrypt, labelled) refl

  -- A message under the known key opens under the next key of the receiving chain.
  pub decrypt_message-known :
      (m : RatchetedMessage) (b : Ratchet)
      → m.ratchet_key ≡ b.their_ratchet_key
      → decrypt_message c m b
        ≡ (decrypt c m.ciphertext (c.sha256 (1 ∷ b.recv_chain_key)) m.nonce, after_receive b)
  unfolding decrypt_message
  decrypt_message-known m b h = rw (h, beq_refl {A = Bytes} b.their_ratchet_key) refl

module _ (c : Crypto) (total : Total c) (sound : Sound c) where
  -- Encryption returns a message, and the link carries its text behind those under way; a
  -- session's message does not hold the previous count.
  pub encrypt_message-Link :
      (a b : Ratchet) (queue : List RatchetedMessage) (pending : List Bytes) (fresh text : Bytes)
      → Link c a b queue pending
      → (m : RatchetedMessage) × (encrypt_message c fresh text a ≡ (ok m, after_send c a))
        × Link c
            (after_send c a)
            b
            (queue ++ (record m { previous_count = 0 }) ∷ [])
            (pending ++ text ∷ [])
  encrypt_message-Link a b queue pending fresh text h =
      let (t, sealed) = total.seals (c.sha256 (1 ∷ a.send_chain_key)) fresh text in
      (
        sent_message c a fresh t,
        encrypt_message-sealed c fresh text t a sealed,
        record {
          known = h.known;
          carried =
              Carried-append c a.dh_ratchet_key.public b.recv_chain_key pending queue
                a.send_chain_key text (record (sent_message c a fresh t) { previous_count = 0 })
                h.carried refl (sound.unseal-seal _ _ _ _ sealed);
        },
      )

  -- Decryption of the next message under way returns its text.
  pub decrypt_message-Link :
      (a b : Ratchet) (m : RatchetedMessage) (queue : List RatchetedMessage) (pending : List Bytes)
      → Link c a b (m ∷ queue) pending
      → (text : Bytes) × (rest : List Bytes) × (pending ≡ text ∷ rest)
        × (decrypt_message c m b ≡ (ok text, after_receive c b))
        × Link c a (after_receive c b) queue rest
  unfolding decrypt labelled
  decrypt_message-Link a b m queue [] h = absurd h.carried
  decrypt_message-Link a b m queue (text ∷ rest) h = (
    text,
    rest,
    refl,
    decrypt_message-known c m b (h.carried.0 ∙ sym h.known) ∙ rw h.carried.1,
    record { known = h.known; carried = h.carried.2 },
  )
