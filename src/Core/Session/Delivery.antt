-- ===== src/Core/Session/Delivery.antt =====
-- Two clients that talk through a relay which keeps the order of each one's messages: every
-- schedule of sending and reading.
pub mod Lanes
pub mod Flow
use tintin.Prelude.{
  suc, ℕ, ◌≡◌, refl, sym, ap, ◌∙◌, List, [], ◌∷◌, ◌++◌, map, Option, none, some, Result, ok, err,
  String, arith, length,
}
use mathlib.Core.Path.{subst₂}
use mathlib.Core.List.{append_assoc, append-nil, map-append}
use tintin.Core.Crypto.{Bytes, Crypto, Sound}
use tintin.Core.Error.{TinTinError}
use tintin.Core.Keys.{
  IdentityKeyPair, SignedPreKey, generate_signed_pre_key, generate_identity, generate_key_pair,
  agree,
}
use tintin.Core.Message.{SessionMessage}
use tintin.Core.Ratchet.{Ratchet, RatchetedMessage, ratchet_initiator, ratchet_responder}
use tintin.Core.Ratchet.InSync.{
  Carried, Link, Total, after_send, after_receive, encrypt_message-Link, decrypt_message-Link,
}
use tintin.Core.Session.{
  Session, session_initiator, session_responder, session_encrypt, session_decrypt, unwrap,
}

-- One client writes; the queue holds what the other has not read; `read` is what it has read.
pub record Lane : Type 0 where
  pub queue : List SessionMessage
  pub read : List Bytes

pub record World : Type 0 where
  pub alice : Session
  pub bob : Session
  pub to_bob : Lane
  pub to_alice : Lane

-- A client sends a text under a fresh nonce, or reads the oldest message that waits for it.
pub data Event : Type 0 where
  alice_sends bob_sends : Bytes → Bytes → Event
  alice_reads bob_reads : Event

module _ (c : Crypto) where
  -- the writer and the lane after a text was sent; `none` where the library returns an error
  pub send_on : Bytes → Bytes → Session → Lane → Option (Session × Lane)
  send_on fresh text writer lane =
      let (r, writer') = session_encrypt c fresh text writer in
      elim r [ ok m ↦ some (writer', record lane { queue = lane.queue ++ m ∷ [] }) | err e ↦ none ]

  pub take_on : Session → List SessionMessage → List Bytes → Option (Session × Lane)
  take_on reader [] read = some (reader, record { queue = []; read = read })
  take_on reader (m ∷ queue) read =
      let (r, reader') = session_decrypt c m reader in
      elim r [
        | ok text ↦ some (reader', record { queue = queue; read = read ++ text ∷ [] })
        | err e ↦ none
      ]

  pub read_on : Session → Lane → Option (Session × Lane)
  unfolding take_on
  read_on reader lane = take_on reader lane.queue lane.read

  pub step : Event → World → Option World
  step (alice_sends fresh text) w = elim (send_on fresh text w.alice w.to_bob) [
    | none ↦ none
    | some (s, lane) ↦ some (record w { alice = s; to_bob = lane })
  ]
  step (bob_sends fresh text) w = elim (send_on fresh text w.bob w.to_alice) [
    | none ↦ none
    | some (s, lane) ↦ some (record w { bob = s; to_alice = lane })
  ]
  step alice_reads w = elim (read_on w.alice w.to_alice) [
    | none ↦ none
    | some (s, lane) ↦ some (record w { alice = s; to_alice = lane })
  ]
  step bob_reads w = elim (read_on w.bob w.to_bob) [
    | none ↦ none
    | some (s, lane) ↦ some (record w { bob = s; to_bob = lane })
  ]

  pub run : List Event → World → Option World
  run [] w = some w
  run (e ∷ events) w = elim (step e w) [ none ↦ none | some w' ↦ run events w' ]

-- The texts that each one sends, in order.
pub written_by_alice : List Event → List Bytes
written_by_alice [] = []
written_by_alice (alice_sends fresh text ∷ events) = text ∷ written_by_alice events
written_by_alice (e ∷ events) = written_by_alice events

pub written_by_bob : List Event → List Bytes
written_by_bob [] = []
written_by_bob (bob_sends fresh text ∷ events) = text ∷ written_by_bob events
written_by_bob (e ∷ events) = written_by_bob events
