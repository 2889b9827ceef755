-- ===== src/Client/Sending/FirstMessage.antt =====
-- The envelope of the first message to a peer.
use tintin.Prelude.{
  suc, ◌≡◌, refl, sym, ◌∙◌, ap, Bool, true, false, String, none, some, Result, ok, err, continue,
  pure, ◌==◌, text_eq, number_eq,
}
use tintin.Core.Crypto.{Bytes}
use tintin.Core.Message.{
  Envelope, MessageType, pre_key_bundle, PreKeyBundle, SessionMessage, new_envelope,
}
use tintin.Core.Session.{Session, get, add, is_for, session_initiator, session_encrypt}
use tintin.Core.Session.Lookup.{get-add}
use tintin.Client.State.{TinTinClient, ClientError, Outside, Device}
use tintin.Client.Sending.{
  from_core, fetch_bundle, open_session, establish, wrapped, sealed, seal_with, put_back,
  encrypt_for, send_encrypted, content_for, envelope_to, post, transmit,
}
use tintin.Client.Sending.Frame.{fetch_bundle-Keeps}

module _ {R : Type 0} (o : Outside R) (recipient : String) where
  -- the client after a session was opened
  abbrev opened_at : Session → Device R → Device R
  opened_at s d = record d {
    looks = suc d.looks;
    me = record d.me { sessions = add d.me.sessions s };
  }

  open_session_lem :
      (bundle : PreKeyBundle) (s : Session) (d : Device R)
      → session_initiator o.crypto
          (o.draw d.looks)
          d.me.identity
          recipient
          1
          bundle.identity_key
          bundle.signed_pre_key
        ≡ ok s
      → open_session o recipient bundle d ≡ (ok true, opened_at s d)
  unfolding open_session from_core
  open_session_lem bundle s d h = rw (h, open_session, from_core) refl

  -- the first message, with the keys
  abbrev pub first_content : TinTinClient → Session → SessionMessage → Bytes
  first_content me s m = o.codec.pre_key_to_vec (record {
    identity_key = me.identity.key_pair.public;
    base_key = s.ratchet.dh_ratchet_key.public;
    session_message = m;
  })

  encrypt_for_lem :
      (bytes : Bytes) (s s' : Session) (m : SessionMessage) (d : Device R)
      → get d.me.sessions recipient 1 ≡ some s
      → session_encrypt o.crypto (o.draw d.looks) bytes s ≡ (ok m, s')
      → encrypt_for o recipient true bytes d ≡ (
        ok (first_content d.me s' m, pre_key_bundle),
        record d {
          looks = suc d.looks;
          me = record d.me { sessions = put_back recipient s' d.me.sessions };
        },
      )
  unfolding encrypt_for wrapped
  encrypt_for_lem bytes s s' m d there h =
      ap
        (λ x.
          seal_with o recipient true bytes (o.draw d.looks) x (record d { looks = suc d.looks }))
        there
      ∙ ap (λ x. sealed o recipient true x (record d { looks = suc d.looks })) h

  pure_inv :
      {A : Type 0} (x : Result ClientError A × Device R) (env envelope : Envelope)
      → (continue x.0 (λ _. pure env) x.1).0 ≡ ok envelope
      → env ≡ envelope
  pure_inv (ok a, d) env envelope h = cc
  pure_inv (err e, d) env envelope h = cc

  post_inv :
      (content : Bytes × MessageType) (d : Device R) (envelope : Envelope)
      → (post o recipient content d).0 ≡ ok envelope
      → new_envelope (o.millis d.looks) d.me.user_id recipient content.0 content.1 ≡ envelope
  unfolding post envelope_to
  post_inv (content, msg_type) d envelope h =
      pure_inv _ (new_envelope (o.millis d.looks) d.me.user_id recipient content msg_type) envelope
        h

  -- the client after its pre-key request
  abbrev pub asked : Device R → Device R
  asked d = (fetch_bundle o recipient d).1

  asked_me : (d : Device R) → (asked d).me ≡ d.me
  asked_me d = fetch_bundle-Keeps o (λ me. me) recipient d

  establish_lem :
      (bundle : PreKeyBundle) (s : Session) (d : Device R)
      → get d.me.sessions recipient 1 ≡ none
      → (fetch_bundle o recipient d).0 ≡ ok bundle
      → session_initiator o.crypto
          (o.draw (asked d).looks)
          d.me.identity
          recipient
          1
          bundle.identity_key
          bundle.signed_pre_key
        ≡ ok s
      → establish o recipient d ≡ (ok true, opened_at s (asked d))
  unfolding establish
  establish_lem bundle s d absent fetched h =
      let here =
        ap
          (λ (me : TinTinClient).
            session_initiator o.crypto (o.draw (asked d).looks) me.identity recipient 1
              bundle.identity_key bundle.signed_pre_key)
          (asked_me d)
        ∙ h in
      rw (absent, establish)
        (ap
            (λ (x : Result ClientError PreKeyBundle).
              continue x (λ b. open_session o recipient b) (asked d))
            fetched
          ∙ open_session_lem bundle s (asked d) here)

  after_first : Session → Session → Device R → Device R
  after_first s s' d = record (opened_at s d) {
    looks = suc (suc d.looks);
    me = record d.me { sessions = put_back recipient s' (add d.me.sessions s) };
  }

  content_for_lem :
      (text : String) (bundle : PreKeyBundle) (s s' : Session) (m : SessionMessage) (d : Device R)
      → (recipient == d.me.user_id) ≡ false
      → get d.me.sessions recipient 1 ≡ none
      → (fetch_bundle o recipient d).0 ≡ ok bundle
      → session_initiator o.crypto
          (o.draw (asked d).looks)
          d.me.identity
          recipient
          1
          bundle.identity_key
          bundle.signed_pre_key
        ≡ ok s
      → is_for recipient 1 s ≡ true
      → session_encrypt o.crypto (o.draw (suc (asked d).looks)) (o.codec.as_bytes text) s
        ≡ (ok m, s')
      → content_for o recipient text d
        ≡ (ok (first_content (asked d).me s' m, pre_key_bundle), after_first s s' (asked d))
  unfolding content_for send_encrypted after_first
  content_for_lem text bundle s s' m d other absent fetched h peer sealed' =
      let there : get (add (asked d).me.sessions s) recipient 1 ≡ some s =
        get-add (asked d).me.sessions s recipient 1 ∙ rw peer refl in
      rw other (
        ap
          (λ (x : Result ClientError Bool × Device R).
            continue x.0 (λ is_new. encrypt_for o recipient is_new (o.codec.as_bytes text)) x.1)
          (establish_lem bundle s d absent fetched h)
        ∙ encrypt_for_lem (o.codec.as_bytes text) s s' m (opened_at s (asked d)) there sealed')

  pub first_envelope :
      (text : String) (bundle : PreKeyBundle) (envelope : Envelope) (s s' : Session)
      (m : SessionMessage) (d : Device R)
      → (recipient == d.me.user_id) ≡ false
      → get d.me.sessions recipient 1 ≡ none
      → (fetch_bundle o recipient d).0 ≡ ok bundle
      → (transmit o recipient text d).0 ≡ ok envelope
      → session_initiator o.crypto
          (o.draw (asked d).looks)
          d.me.identity
          recipient
          1
          bundle.identity_key
          bundle.signed_pre_key
        ≡ ok s
      → is_for recipient 1 s ≡ true
      → session_encrypt o.crypto (o.draw (suc (asked d).looks)) (o.codec.as_bytes text) s
        ≡ (ok m, s')
      → new_envelope
          (o.millis (suc (suc (asked d).looks)))
          d.me.user_id
          recipient
          (first_content d.me s' m)
          pre_key_bundle
        ≡ envelope
  unfolding transmit after_first
  first_envelope text bundle envelope s s' m d other absent fetched sent h peer sealed' =
      let made = content_for_lem text bundle s s' m d other absent fetched h peer sealed' in
      let posted' =
        sym (
          ap
            (λ (x : Result ClientError (Bytes × MessageType) × Device R).
              (continue x.0 (λ content. post o recipient content) x.1).0)
            made)
        ∙ sent in
      ap
        (λ (me : TinTinClient).
          new_envelope (o.millis (suc (suc (asked d).looks))) me.user_id recipient
            (first_content me s' m) pre_key_bundle)
        (sym (asked_me d))
      ∙ post_inv (first_content (asked d).me s' m, pre_key_bundle) (after_first s s' (asked d))
          envelope posted'
