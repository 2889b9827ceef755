-- ===== src/Core/Session/Delivery/Lanes.antt =====
-- One direction of a conversation over session.rs: what waits on it and what was read.
use tintin.Prelude.{suc, ◌≡◌, refl, sym, ap, ◌∙◌, List, [], ◌∷◌, ◌++◌, map, some, length}
use mathlib.Core.List.{append_assoc, map-append}
use tintin.Core.Crypto.{Bytes, Crypto, Sound}
use tintin.Core.Message.{SessionMessage}
use tintin.Core.Ratchet.{Ratchet}
use tintin.Core.Ratchet.InSync.{
  Carried, Link, Total, after_send, after_receive, encrypt_message-Link, decrypt_message-Link,
}
use tintin.Core.Session.Delivery.{Lane, World, send_on, take_on}
use tintin.Core.Session.{Session, session_encrypt, session_decrypt, unwrap}

module _ (c : Crypto) where
  -- What was written on a lane is what was read, then what is under way.
  pub record IsFlowing (writer reader : Session) (lane : Lane) (written : List Bytes) : Type 0 where
    pub pending : List Bytes
    pub link : Link c writer.ratchet reader.ratchet (map unwrap lane.queue) pending
    pub all : written ≡ lane.read ++ pending

  -- Both lanes, after the two have written these texts.
  pub record IsTalking (w : World) (from_alice from_bob : List Bytes) : Type 0 where
    pub to_bob : IsFlowing w.alice w.bob w.to_bob from_alice
    pub to_alice : IsFlowing w.bob w.alice w.to_alice from_bob

module _ (c : Crypto) where
  Carried-length :
      (key chain : Bytes) (ps : List Bytes) (queue : List SessionMessage) (final : Bytes)
      → Carried c key chain ps (map unwrap queue) final
      → length ps ≡ length queue
  Carried-length key chain [] [] final h = refl
  Carried-length key chain [] (m ∷ queue) final h = absurd h
  Carried-length key chain (p ∷ ps) [] final h = absurd h
  Carried-length key chain (p ∷ ps) (m ∷ queue) final h =
      ap suc (Carried-length key (c.sha256 (2 ∷ chain)) ps queue final h.2)

  -- a text is under way for each message that waits
  pub under_way :
      (writer reader : Session) (lane : Lane) {written : List Bytes}
      (h : IsFlowing c writer reader lane written)
      → length h.pending ≡ length lane.queue
  under_way writer reader lane h =
      Carried-length writer.ratchet.dh_ratchet_key.public reader.ratchet.recv_chain_key h.pending
        lane.queue writer.ratchet.send_chain_key h.link.carried

module _ (c : Crypto) (total : Total c) (sound : Sound c) where
  pub send_on-IsFlowing :
      (writer reader : Session) (lane : Lane) (written : List Bytes) (fresh text : Bytes)
      → IsFlowing c writer reader lane written
      → (lane' : Lane) × (send_on c fresh text writer lane
          ≡ some (record writer { ratchet = after_send c writer.ratchet }, lane'))
        × IsFlowing c
            (record writer { ratchet = after_send c writer.ratchet })
            reader
            lane'
            (written ++ text ∷ [])
  unfolding send_on session_encrypt
  send_on-IsFlowing writer reader lane written fresh text h =
      let (m, sent, link) =
        encrypt_message-Link c total sound writer.ratchet reader.ratchet (map unwrap lane.queue)
          h.pending fresh text h.link in
      let sent_text : SessionMessage = record {
        version = writer.version;
        ciphertext = m.ciphertext;
        nonce = m.nonce;
        ratchet_key = m.ratchet_key;
        message_number = m.message_number;
      } in
      (
        record lane { queue = lane.queue ++ sent_text ∷ [] },
        rw (sent, send_on) (rw (sent, session_encrypt)),
        record {
          pending = h.pending ++ text ∷ [];
          link = rw map-append link;
          all = ap (λ t. t ++ text ∷ []) h.all ∙ append_assoc lane.read h.pending (text ∷ []);
        },
      )

  pub take_on-IsFlowing :
      (writer reader : Session) (queue : List SessionMessage) (read written : List Bytes)
      (pending : List Bytes)
      → Link c writer.ratchet reader.ratchet (map unwrap queue) pending
      → written ≡ read ++ pending
      → (r : Ratchet) × (lane' : Lane) × (take_on c reader queue read
          ≡ some (record reader { ratchet = r }, lane'))
        × IsFlowing c writer (record reader { ratchet = r }) lane' written
        × (r.dh_ratchet_key ≡ reader.ratchet.dh_ratchet_key)
        × (r.send_chain_key ≡ reader.ratchet.send_chain_key)
  unfolding take_on session_decrypt
  take_on-IsFlowing writer reader [] read written pending link all = (
    reader.ratchet,
    record { queue = []; read = read },
    refl,
    record { pending = pending; link = link; all = all },
    refl,
    refl,
  )
  take_on-IsFlowing writer reader (m ∷ queue) read written pending link all =
      let (text, rest, split, opened, link') =
        decrypt_message-Link c total sound writer.ratchet reader.ratchet (unwrap m)
          (map unwrap queue) pending link in
      (
        after_receive c reader.ratchet,
        record { queue = queue; read = read ++ text ∷ [] },
        rw (opened, take_on) (rw (opened, session_decrypt)),
        record {
          pending = rest;
          link = link';
          all = all ∙ ap (λ t. read ++ t) split ∙ sym (append_assoc read (text ∷ []) rest);
        },
        refl,
        refl,
      )

  pub flow_kept :
      (a b : Session) (lane : Lane) (written : List Bytes) (r : Ratchet)
      → IsFlowing c a b lane written
      → r.dh_ratchet_key ≡ a.ratchet.dh_ratchet_key
      → r.send_chain_key ≡ a.ratchet.send_chain_key
      → IsFlowing c (record a { ratchet = r }) b lane written
  flow_kept a b lane written r h key chain = record {
    pending = h.pending;
    link = record {
      known = h.link.known ∙ ap (λ k. k.public) (sym key);
      carried = rw (key, chain) h.link.carried;
    };
    all = h.all;
  }

  -- sending does not touch what the sender is to read
  pub flow_unread :
      (a b : Session) (lane : Lane) (written : List Bytes)
      → IsFlowing c a b lane written
      → IsFlowing c a (record b { ratchet = after_send c b.ratchet }) lane written
  flow_unread a b lane written h = record {
    pending = h.pending;
    link = record { known = h.link.known; carried = h.link.carried };
    all = h.all;
  }
