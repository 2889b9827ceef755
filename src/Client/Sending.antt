-- ===== src/Client/Sending.antt =====
-- Sending, of tintin-cli/src/main.rs: registration, the session with a peer, messages, receipts and
-- edits.
pub mod Frame
pub mod FirstMessage
pub mod Outcome
use tintin.Prelude.{
  ℕ, ◌≡◌, Bool, true, false, not, String, List, [], ◌∷◌, ◌++◌, Option, none, some, Result, ok, err,
  pure, raise, lift, ◌>>=◌, ◌>>◌, ◌==◌, text_eq, if◌then◌else◌, length, get_elem?,
}
use tintin.Core.Crypto.{Bytes, Crypto}
use tintin.Core.Error.{TinTinError}
use tintin.Core.Message.{
  Envelope, MessageType, normal, pre_key_bundle, receipt, new_envelope, ReceiptContent, ReceiptType,
  PreKeyBundle, PreKeyBundleMessage, SessionMessage,
}
use tintin.Core.Session.{
  Session, SessionStore, get, add, is_for, session_initiator, session_encrypt,
}
use tintin.Client.Wire.{Payload, blank}
use tintin.Client.State.{
  TinTinClient, SentMessage, MessageStatus, sent, MessageRecord, MessageDirection, outgoing,
  incoming, Request, register as register_request, fetch_keys, send, Response, ClientError,
  user_not_found, refused, malformed, core, message_not_found, panicked, Outside, Device, Run,
  modify, asks, fresh, now, send_line, recv_line,
}

-- what a `&mut` to the first element that passes the test leaves
unfoldable pub replace_first : {A : Type 0} → (A → Bool) → A → List A → List A
replace_first p a [] = []
replace_first p a (x ∷ xs) = let rest = replace_first p a xs in if p x then a ∷ xs else x ∷ rest

-- the session that `get_mut` gave, after a change to it
unfoldable pub put_back : String → Session → SessionStore → SessionStore
unfolding replace_first
put_back user session store = record {
  sessions = replace_first (is_for user 1) session store.sessions;
}

-- `?` on a result of tintin-core
unfoldable pub from_core : {R A : Type 0} → Result TinTinError A → Run R A
from_core (ok a) d = (ok a, d)
from_core (err e) d = (err (core e), d)

-- `from_value(..)?`
abbrev pub bundle_from : {R : Type 0} → Result String PreKeyBundle → Run R PreKeyBundle
bundle_from (ok bundle) d = (ok bundle, d)
bundle_from (err e) d = (err (malformed e), d)

module _ {R : Type 0} (o : Outside R) where
  -- A request whose answer must be "ok".
  unfoldable pub request_ok : String → Request → Run R Response
  request_ok what request = send_line o request >> recv_line o >>= λ resp.
      if resp.status == "ok" then pure resp else raise (refused what resp.error)

  unfoldable pub register : Run R (Unit {0})
  unfolding request_ok
  register d =
      let me = d.me in
      let bundle : PreKeyBundle = record {
        identity_key = me.identity.key_pair.public;
        device_id = 1;
        signed_pre_key_id = me.signed_pre_key.id;
        signed_pre_key = me.signed_pre_key.key_pair.public;
        signed_pre_key_signature = me.signed_pre_key.signature;
        one_time_pre_key_id = none;
        one_time_pre_key = none;
      } in
      (request_ok "Registration failed" (register_request me.user_id bundle.identity_key bundle)
          >> pure tt)
        d

  unfoldable pub fetch_bundle : String → Run R PreKeyBundle
  fetch_bundle user_id = send_line o (fetch_keys user_id) >> recv_line o >>= λ resp.
      if resp.status == "ok"
      then bundle_from resp.signed_pre_key
      else raise (user_not_found user_id)

  -- a session with a bundle that was fetched
  unfoldable pub open_session : String → PreKeyBundle → Run R Bool
  unfolding from_core
  open_session recipient bundle = do
    secret ← fresh o
    identity ← asks (λ me. me.identity)
    session ← from_core (
        session_initiator o.crypto secret identity recipient 1 bundle.identity_key
          bundle.signed_pre_key)
    modify (λ me. record me { sessions = add me.sessions session })
    pure true

  -- Is there a session with the recipient? If not, one is opened; the result says whether it is new.
  unfoldable pub establish : String → Run R Bool
  unfolding fetch_bundle open_session
  establish recipient d = elim (get d.me.sessions recipient 1) [
    | some session ↦ (ok false, d)
    | none ↦ (fetch_bundle recipient >>= λ bundle. open_session recipient bundle) d
  ]

  -- The first message to a peer carries our keys.
  unfoldable pub wrapped : Bool → TinTinClient → Session → SessionMessage → Bytes × MessageType
  wrapped is_new me session encrypted =
      if is_new
      then (
        o.codec.pre_key_to_vec (record {
          identity_key = me.identity.key_pair.public;
          base_key = session.ratchet.dh_ratchet_key.public;
          session_message = encrypted;
        }),
        pre_key_bundle,
      )
      else (o.codec.message_to_json encrypted, normal)

  abbrev pub sealed :
      String → Bool → Result TinTinError SessionMessage × Session → Run R (Bytes × MessageType)
  sealed recipient is_new (ok encrypted, session) d = (
    ok (wrapped is_new d.me session encrypted),
    record d { me = record d.me { sessions = put_back recipient session d.me.sessions } },
  )
  sealed recipient is_new (err e, session) d = (
    err (core e),
    record d { me = record d.me { sessions = put_back recipient session d.me.sessions } },
  )

  abbrev pub seal_with :
      String → Bool → Bytes → Bytes → Option Session → Run R (Bytes × MessageType)
  seal_with recipient is_new plaintext nonce (some session) =
      sealed recipient is_new (session_encrypt o.crypto nonce plaintext session)
  seal_with recipient is_new plaintext nonce none = raise panicked

  -- `get_mut(..).unwrap()`, `encrypt`, and the content and type of the envelope
  unfoldable pub encrypt_for : String → Bool → Bytes → Run R (Bytes × MessageType)
  unfolding wrapped put_back
  encrypt_for recipient is_new plaintext = do
    nonce ← fresh o
    session ← asks (λ me. get me.sessions recipient 1)
    seal_with recipient is_new plaintext nonce session

  unfoldable pub send_encrypted : String → Bytes → Run R (Bytes × MessageType)
  unfolding establish encrypt_for
  send_encrypted recipient plaintext =
      establish recipient >>= λ is_new. encrypt_for recipient is_new plaintext

  abbrev pub logged : MessageRecord → TinTinClient → TinTinClient
  logged entry me = record me { chat_log = me.chat_log ++ entry ∷ [] }

  unfoldable pub record_message :
      String → String → Bool → Bool → Option String → Bool → Option String → Run R (Unit {0})
  record_message peer text is_outgoing is_group group_name is_channel channel_name = do
    ts ← now o
    modify (
        logged (record {
          peer = peer;
          text = text;
          timestamp = ts;
          direction = if is_outgoing then outgoing else incoming;
          is_group = is_group;
          group_name = group_name;
          is_channel = is_channel;
          channel_name = channel_name;
          edited = false;
        }))

  abbrev pub tracked : String → String → ℕ → TinTinClient → TinTinClient
  tracked recipient text timestamp me = record me {
    sent_messages =
        me.sent_messages
        ++ record {
          recipient = recipient;
          text = text;
          timestamp = timestamp;
          status = sent;
          edited = false;
        }
          ∷ [];
  }

  -- Messages to oneself are not encrypted.
  unfoldable pub content_for : String → String → Run R (Bytes × MessageType)
  unfolding send_encrypted
  content_for recipient plaintext d =
      if recipient == d.me.user_id
      then (ok (o.codec.as_bytes plaintext, normal), d)
      else send_encrypted recipient (o.codec.as_bytes plaintext) d

  -- `Envelope::new` from this user
  unfoldable pub envelope_to : String → Bytes × MessageType → Run R Envelope
  unfolding new_envelope
  envelope_to recipient (content, msg_type) = do
    millis ← now o
    user_id ← asks (λ me. me.user_id)
    pure (new_envelope millis user_id recipient content msg_type)

  -- one envelope, which the relay must accept
  unfoldable pub post : String → Bytes × MessageType → Run R Envelope
  unfolding envelope_to request_ok
  post recipient content = envelope_to recipient content >>= λ envelope.
      request_ok "Send failed" (send envelope) >> pure envelope

  -- a message that the relay has accepted
  unfoldable pub note_sent : String → String → Envelope → Run R (Unit {0})
  unfolding record_message
  note_sent recipient plaintext envelope =
      modify (tracked recipient plaintext envelope.timestamp)
      >> record_message recipient plaintext true false none false none

  -- all of `send_message` up to the answer of the relay
  unfoldable pub transmit : String → String → Run R Envelope
  unfolding content_for post
  transmit recipient plaintext =
      content_for recipient plaintext >>= λ content. post recipient content

  unfoldable pub send_message : String → String → Run R (Unit {0})
  unfolding transmit note_sent
  send_message recipient plaintext =
      transmit recipient plaintext >>= λ envelope. note_sent recipient plaintext envelope

  unfoldable pub send_receipt : String → String → ℕ → ReceiptType → Run R (Unit {0})
  unfolding envelope_to
  send_receipt recipient original_sender original_timestamp receipt_type = do
    envelope ← envelope_to recipient (
      o.codec.receipt_to_vec (record {
        receipt_type = receipt_type;
        original_sender = original_sender;
        original_timestamp = original_timestamp;
      }),
      receipt,
    )
    send_line o (send envelope)
    resp ← recv_line o
    pure tt
