-- ===== src/Core/Session/Delivery/Flow.antt =====
-- The invariant of a conversation over session.rs.
use tintin.Prelude.{ℕ, ◌≡◌, refl, ap, ◌∙◌, List, [], ◌∷◌, ◌++◌, some, ok, String, arith, length}
use mathlib.Core.Path.{subst₂}
use mathlib.Core.List.{append_assoc, append-nil}
use tintin.Core.Crypto.{Bytes, Crypto, Sound}
use tintin.Core.Keys.{IdentityKeyPair, generate_signed_pre_key}
use tintin.Core.Ratchet.InSync.{Total, after_send}
use tintin.Core.Session.Delivery.{
  World, Event, alice_sends, bob_sends, alice_reads, bob_reads, read_on, step, run,
  written_by_alice, written_by_bob,
}
use tintin.Core.Session.{Session, session_initiator, session_responder}
use tintin.Core.Session.Delivery.Lanes.{
  IsTalking, under_way, send_on-IsFlowing, take_on-IsFlowing, flow_kept, flow_unread,
}

-- Two fresh sessions.
abbrev pub opened : Session → Session → World
opened a b = record {
  alice = a;
  bob = b;
  to_bob = record { queue = []; read = [] };
  to_alice = record { queue = []; read = [] };
}

module _ (c : Crypto) (total : Total c) (sound : Sound c) where
  -- Each step returns, and both lanes go on.
  step-IsTalking :
      (e : Event) (w : World) (from_alice from_bob : List Bytes)
      → IsTalking c w from_alice from_bob
      → (w' : World) × (step c e w ≡ some w')
        × IsTalking c w'
            (from_alice ++ written_by_alice (e ∷ []))
            (from_bob ++ written_by_bob (e ∷ []))
  unfolding step written_by_alice written_by_bob read_on
  step-IsTalking (alice_sends fresh text) w from_alice from_bob h =
      let (lane, sent, flow) =
        send_on-IsFlowing c total sound w.alice w.bob w.to_bob from_alice fresh text h.to_bob in
      (
        record w {
          alice = record w.alice { ratchet = after_send c w.alice.ratchet };
          to_bob = lane;
        },
        rw (sent, step),
        record {
          to_bob = flow;
          to_alice =
              rw append-nil
                (flow_unread c total sound w.bob w.alice w.to_alice from_bob h.to_alice);
        },
      )
  step-IsTalking (bob_sends fresh text) w from_alice from_bob h =
      let (lane, sent, flow) =
        send_on-IsFlowing c total sound w.bob w.alice w.to_alice from_bob fresh text h.to_alice in
      (
        record w { bob = record w.bob { ratchet = after_send c w.bob.ratchet }; to_alice = lane },
        rw (sent, step),
        record {
          to_bob =
              rw append-nil (flow_unread c total sound w.alice w.bob w.to_bob from_alice h.to_bob);
          to_alice = flow;
        },
      )
  step-IsTalking alice_reads w from_alice from_bob h =
      let (r, lane, taken, flow, key, chain) =
        take_on-IsFlowing c total sound w.bob w.alice w.to_alice.queue w.to_alice.read from_bob
          h.to_alice.pending h.to_alice.link h.to_alice.all in
      (
        record w { alice = record w.alice { ratchet = r }; to_alice = lane },
        rw (taken, step, read_on),
        record {
          to_bob =
              rw append-nil
                (flow_kept c total sound w.alice w.bob w.to_bob from_alice r h.to_bob key chain);
          to_alice = rw append-nil flow;
        },
      )
  step-IsTalking bob_reads w from_alice from_bob h =
      let (r, lane, taken, flow, key, chain) =
        take_on-IsFlowing c total sound w.alice w.bob w.to_bob.queue w.to_bob.read from_alice
          h.to_bob.pending h.to_bob.link h.to_bob.all in
      (
        record w { bob = record w.bob { ratchet = r }; to_bob = lane },
        rw (taken, step, read_on),
        record {
          to_bob = rw append-nil flow;
          to_alice =
              rw append-nil
                (flow_kept c total sound w.bob w.alice w.to_alice from_bob r h.to_alice key chain);
        },
      )

  written_step :
      (e : Event) (events : List Event)
      → (written_by_alice (e ∷ []) ++ written_by_alice events ≡ written_by_alice (e ∷ events))
        × (written_by_bob (e ∷ []) ++ written_by_bob events ≡ written_by_bob (e ∷ events))
  unfolding written_by_alice written_by_bob
  written_step (alice_sends fresh text) events = (refl, refl)
  written_step _ events = (refl, refl)

  run-IsTalking :
      (events : List Event) (w : World) (from_alice from_bob : List Bytes)
      → IsTalking c w from_alice from_bob
      → (w' : World) × (run c events w ≡ some w')
        × IsTalking c w' (from_alice ++ written_by_alice events) (from_bob ++ written_by_bob events)
  unfolding run written_by_alice written_by_bob
  run-IsTalking [] w from_alice from_bob h = (w, refl, rw append-nil (rw append-nil h))
  run-IsTalking (e ∷ events) w from_alice from_bob h =
      let (w', stepped, talking) = step-IsTalking e w from_alice from_bob h in
      let (w'', ran, talked) =
        run-IsTalking events w' (from_alice ++ written_by_alice (e ∷ []))
          (from_bob ++ written_by_bob (e ∷ [])) talking in
      (
        w'',
        rw (stepped, run) ran,
        subst₂ (λ x y. IsTalking c w'' x y)
            (append_assoc from_alice _ _ ∙ ap (λ t. from_alice ++ t) (written_step e events).0)
            (append_assoc from_bob _ _ ∙ ap (λ t. from_bob ++ t) (written_step e events).1) talked,
      )

  pub handshake :
      (eph_secret spk_secret : Bytes) (alice_identity bob_identity : IdentityKeyPair)
      (alice_id bob_id : String) (alice_device bob_device spk_id : ℕ)
      (their_alice their_bob : Bytes) (a b : Session)
      → session_initiator c eph_secret alice_identity bob_id bob_device their_bob
          (generate_signed_pre_key c spk_id bob_identity spk_secret).key_pair.public
        ≡ ok a
      → session_responder c bob_identity alice_id alice_device their_alice
          a.ratchet.dh_ratchet_key.public
          (generate_signed_pre_key c spk_id bob_identity spk_secret)
        ≡ ok b
      → IsTalking c (opened a b) [] []
  unfolding session_initiator session_responder generate_signed_pre_key
  handshake es ss ai bi an bn ad bd sid ta tb a b ha hb = record {
    to_bob = record {
      pending = [];
      link = record { known = ground arith; carried = ground (arith, sound.agreement ss es) };
      all = refl;
    };
    to_alice = record {
      pending = [];
      link = record { known = ground arith; carried = ground (arith, sound.agreement ss es) };
      all = refl;
    };
  }

  -- Where key agreement is symmetric, sealing never fails and opening undoes it: Alice opens a
  -- session with Bob's signed pre-key, and Bob one with the ephemeral key of hers. Whatever the
  -- two send and read after that, in whatever order, each reading in the order of writing, no
  -- call of the library returns an error, and what each has read is, text for text and in order,
  -- what the other has written, less as many texts at its end as messages still wait.
  pub conversation_delivers :
      (eph_secret spk_secret : Bytes) (alice_identity bob_identity : IdentityKeyPair)
      (alice_id bob_id : String) (alice_device bob_device spk_id : ℕ)
      (their_alice their_bob : Bytes) (a b : Session) (events : List Event)
      → session_initiator c eph_secret alice_identity bob_id bob_device their_bob
          (generate_signed_pre_key c spk_id bob_identity spk_secret).key_pair.public
        ≡ ok a
      → session_responder c bob_identity alice_id alice_device their_alice
          a.ratchet.dh_ratchet_key.public
          (generate_signed_pre_key c spk_id bob_identity spk_secret)
        ≡ ok b
      → (w : World) × (run c events (opened a b) ≡ some w)
        × (to_bob : List Bytes) × (written_by_alice events ≡ w.to_bob.read ++ to_bob)
        × (length to_bob ≡ length w.to_bob.queue)
        × (to_alice : List Bytes) × (written_by_bob events ≡ w.to_alice.read ++ to_alice)
        × (length to_alice ≡ length w.to_alice.queue)
  conversation_delivers es ss ai bi an bn ad bd sid ta tb a b events ha hb =
      let (w, ran, talked) =
        run-IsTalking events (opened a b) [] []
          (handshake es ss ai bi an bn ad bd sid ta tb a b ha hb) in
      let alice_flow = talked.to_bob in
      let bob_flow = talked.to_alice in
      (
        w,
        ran,
        alice_flow.pending,
        alice_flow.all,
        under_way c w.alice w.bob w.to_bob alice_flow,
        bob_flow.pending,
        bob_flow.all,
        under_way c w.bob w.alice w.to_alice bob_flow,
      )
