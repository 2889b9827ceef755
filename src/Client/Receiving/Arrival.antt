-- ===== src/Client/Receiving/Arrival.antt =====
-- The first message of one client to another, end to end.
use tintin.Prelude.{
  ℕ, suc, ◌≡◌, refl, sym, ◌∙◌, ap, Bool, true, false, String, [], ◌∷◌, ◌++◌, none, Result, ok,
  continue, pure, ◌==◌, text_eq, number_eq, if◌then◌else◌, arith,
}
use mathlib.Core.Path.{subst}
use text.Mathlib.TextEquality.{eq_iff}
use tintin.Core.Crypto.{Bytes, Sound}
use tintin.Core.Message.{
  Envelope, pre_key_bundle, PreKeyBundle, PreKeyBundleMessage, new_envelope, read as read_receipt,
}
use tintin.Core.Keys.{generate_signed_pre_key}
use tintin.Core.Ratchet.InSync.{Total, after_send, after_receive}
use tintin.Core.Session.{
  Session, is_for, get, add, session_initiator, session_responder, session_decrypt,
}
use tintin.Client.Codecs.{Readable}
use tintin.Client.State.{MessageRecord, incoming, ClientError, Outside, Device}
use tintin.Client.Files.{process_file_chunk}
use tintin.Client.Sending.FirstMessage.{asked, first_content, first_envelope}
use tintin.Client.Calls.Handshake.{elsewhere}
use tintin.Client.Receiving.Opening.{initiated, responded, opening_opens}
use tintin.Client.Sending.{fetch_bundle, transmit, record_message, logged, from_core, send_receipt}
use tintin.Client.Sending.Frame.{send_receipt-Keeps}
use tintin.Client.Calls.{process_call_signal, process_media_chunk}
use tintin.Client.Receiving.{
  entry_of, record_decrypted, take_file_chunk, take_text, acknowledge, take_first, take_envelope,
}

-- the entry of a text that came in
abbrev pub heard_text : String → String → ℕ → MessageRecord
heard_text peer text timestamp = record {
  peer = peer;
  text = text;
  timestamp = timestamp;
  direction = incoming;
  is_group = false;
  group_name = none;
  is_channel = false;
  channel_name = none;
  edited = false;
}

is_for_lem :
    (user : String) (s : Session)
    → s.remote_user_id ≡ user
    → s.remote_device_id ≡ 1
    → is_for user 1 s ≡ true
is_for_lem user s h k =
    let same_user = (eq_iff s.remote_user_id user).1 h in ground (arith, same_user, k)

module _ {R : Type 0} (o : Outside R) (sender : String) (bytes : Bytes) where
  -- The bytes are no JSON, so they are no structured message.
  abbrev pub IsPlain : Type 0
  IsPlain = o.codec.payloads.from_slice bytes ≡ none

  no_signal : (d : Device R) → IsPlain → process_call_signal o sender bytes d ≡ (ok false, d)
  unfolding process_call_signal
  no_signal d plain = rw (plain, process_call_signal) refl

  no_media : (d : Device R) → IsPlain → process_media_chunk o sender bytes d ≡ (ok false, d)
  unfolding process_media_chunk
  no_media d plain = rw (plain, process_media_chunk) refl

  no_file : (d : Device R) → IsPlain → take_file_chunk o sender bytes d ≡ (ok false, d)
  unfolding take_file_chunk process_file_chunk
  no_file d plain = rw (plain, take_file_chunk, process_file_chunk) refl

  abbrev entered : Device R → Device R
  entered d = record d {
    looks = suc d.looks;
    me = logged o (heard_text sender (o.codec.from_utf8_lossy bytes) (o.millis d.looks)) d.me;
  }

  plain_entry : (d : Device R) → IsPlain → record_decrypted o sender bytes d ≡ (ok tt, entered d)
  unfolding record_decrypted entry_of record_message
  plain_entry d plain = rw (plain, record_decrypted, entry_of) refl

  take_text_lem : (d : Device R) → IsPlain → take_text o sender bytes d ≡ (ok tt, entered d)
  unfolding take_text
  take_text_lem d plain =
      ap
        (λ (x : Result ClientError Bool × Device R).
          continue x.0 (λ is_chunk. if is_chunk then pure tt else record_decrypted o sender bytes)
            x.1)
        (no_file d plain)
      ∙ plain_entry d plain

  -- the receipt goes back, and the client is as the entry left it
  acknowledged : Envelope → Device R → Device R
  acknowledged envelope d =
      (send_receipt o envelope.sender_id envelope.sender_id envelope.timestamp read_receipt d).1

  take_first_lem :
      (envelope : Envelope) (d : Device R)
      → sender ≡ envelope.sender_id
      → IsPlain
      → take_first o envelope bytes d ≡ (ok tt, acknowledged envelope (entered d))
  unfolding take_first acknowledge acknowledged
  take_first_lem envelope d from plain =
      rw (sym from)
        (rw (no_signal d plain) (rw (no_media d plain) (rw (take_text_lem d plain) refl)))

  -- the client with the session that opened its first message
  abbrev joined : Session → Device R → Device R
  joined session d = record d { me = record d.me { sessions = add d.me.sessions session } }

  take_envelope_first :
      (envelope : Envelope) (prekey : PreKeyBundleMessage) (session session' : Session)
      (d : Device R)
      → envelope.msg_type ≡ pre_key_bundle
      → sender ≡ envelope.sender_id
      → o.codec.pre_key_from_slice envelope.content ≡ ok prekey
      → session_responder o.crypto d.me.identity envelope.sender_id envelope.sender_device_id
          prekey.identity_key prekey.base_key d.me.signed_pre_key
        ≡ ok session
      → session_decrypt o.crypto prekey.session_message session ≡ (ok bytes, session')
      → IsPlain
      → take_envelope o envelope d ≡ (ok tt, acknowledged envelope (entered (joined session' d)))
  unfolding take_envelope acknowledged
  take_envelope_first envelope prekey session session' d is_first from readable answers opens
        plain =
      rw (is_first, take_envelope)
        (rw readable (
          rw (answers, from_core)
            (rw opens (take_first_lem envelope (joined session' d) from plain))))

  log_after :
      (envelope : Envelope) (d : Device R) → (acknowledged envelope d).me.chat_log ≡ d.me.chat_log
  unfolding acknowledged
  log_after envelope d =
      send_receipt-Keeps o (λ me. me.chat_log) envelope.sender_id envelope.sender_id
        envelope.timestamp read_receipt d

module _ {R : Type 0} (o : Outside R) (draw : ℕ → Bytes) (millis : ℕ → ℕ) where
  -- The envelope returned without an error and made one incoming entry of the log.
  abbrev pub IsHeard : String → String → Device R → Envelope → Type 0
  IsHeard sender text b envelope =
      (logged_at : ℕ) × ((take_envelope (elsewhere o draw millis) envelope b).0 ≡ ok tt)
      × ((take_envelope (elsewhere o draw millis) envelope b).1.me.chat_log
          ≡ b.me.chat_log ++ heard_text sender text logged_at ∷ [])

  -- One client sends another a first text, which is no JSON and not to itself. It gets the other's
  -- pre-key from the relay, which accepts the envelope. When the envelope comes to the other client,
  -- which has the same libraries and its own generator and clock, it returns without an error and
  -- makes one incoming entry of the chat log, from the sender and with the text. It is enough that
  -- the cryptography is sound and total, that what the codecs write is read back, and that the other
  -- client's signed pre-key is one that was generated.
  pub transmit-take_envelope :
      (recipient text : String) (bundle : PreKeyBundle) (envelope : Envelope) (spk_id : ℕ)
      (spk_secret : Bytes) (a b : Device R)
      → Readable o.codec
      → Total o.crypto
      → Sound o.crypto
      → (recipient == a.me.user_id) ≡ false
      → get a.me.sessions recipient 1 ≡ none
      → b.me.signed_pre_key ≡ generate_signed_pre_key o.crypto spk_id b.me.identity spk_secret
      → (fetch_bundle o recipient a).0 ≡ ok bundle
      → bundle.signed_pre_key ≡ b.me.signed_pre_key.key_pair.public
      → o.codec.payloads.from_slice (o.codec.as_bytes text) ≡ none
      → (transmit o recipient text a).0 ≡ ok envelope
      → IsHeard a.me.user_id text b envelope
  unfolding new_envelope
  transmit-take_envelope recipient text bundle envelope spk_id spk_secret a b readable total sound
        other absent generated fetched theirs plain sent =
      let c = o.crypto in
      let ob = elsewhere o draw millis in
      let bytes = o.codec.as_bytes text in
      let asker = asked o recipient a in
      let (s, begun, peer, device) =
        initiated c total sound (o.draw asker.looks) a.me.identity recipient 1 bundle.identity_key
          bundle.signed_pre_key in
      let (t, answers, peer', device') =
        responded c total sound b.me.identity a.me.user_id 1 a.me.identity.key_pair.public
          s.ratchet.dh_ratchet_key.public b.me.signed_pre_key in
      let spk = theirs ∙ ap (λ k. k.key_pair.public) generated in
      let (m, seals, opens) =
        opening_opens c total sound (o.draw asker.looks) spk_secret a.me.identity b.me.identity
          a.me.user_id recipient 1 1 spk_id a.me.identity.key_pair.public bundle.identity_key
          (o.draw (suc asker.looks)) bytes s t
          (subst
            (λ k.
              session_initiator c (o.draw asker.looks) a.me.identity recipient 1 bundle.identity_key
                k
              ≡ ok s)
            spk begun)
          (subst
            (λ k.
              session_responder c b.me.identity a.me.user_id 1 a.me.identity.key_pair.public
                s.ratchet.dh_ratchet_key.public k
              ≡ ok t)
            generated answers) in
      let is_peer : is_for recipient 1 s ≡ true = is_for_lem recipient s peer device in
      let made =
        first_envelope o recipient text bundle envelope s
          (record s { ratchet = after_send c s.ratchet }) m a other absent fetched sent begun
          is_peer seals in
      let arrived =
        take_envelope_first ob a.me.user_id bytes
          (new_envelope (o.millis (suc (suc asker.looks))) a.me.user_id recipient
            (first_content o recipient a.me (record s { ratchet = after_send c s.ratchet }) m)
            pre_key_bundle)
          (record {
            identity_key = a.me.identity.key_pair.public;
            base_key = s.ratchet.dh_ratchet_key.public;
            session_message = m;
          })
          t (record t { ratchet = after_receive c t.ratchet }) b refl refl
          (readable.pre_key_read (record {
            identity_key = a.me.identity.key_pair.public;
            base_key = s.ratchet.dh_ratchet_key.public;
            session_message = m;
          }))
          answers opens plain in
      subst (IsHeard a.me.user_id text b) made (
        millis b.looks,
        ap (λ x. x.0) arrived,
        ap (λ (x : Result ClientError (Unit {0}) × Device R). x.1.me.chat_log) arrived
            ∙ log_after ob a.me.user_id bytes _ _
            ∙ ap (λ u. b.me.chat_log ++ heard_text a.me.user_id u (millis b.looks) ∷ [])
                (readable.from_utf8_lossy-as_bytes text),
      )
