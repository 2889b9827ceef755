-- ===== src/Client/Sending/Frame.antt =====
-- What the sending methods leave as it was.
use tintin.Prelude.{
  ℕ, suc, ◌≡◌, refl, ◌∙◌, Bool, true, false, String, [], Option, none, some, Result, ok, err,
  continue, ◌>>=◌, ◌>>◌, pure, raise, ◌==◌, text_eq, Bool-cases, Option-cases, if◌then◌else◌, sym,
  inl, inr,
}
use tintin.Core.Crypto.{Bytes}
use tintin.Core.Error.{TinTinError}
use tintin.Core.Message.{
  SessionMessage, MessageType, PreKeyBundle, Envelope, ReceiptType, receipt, new_envelope,
}
use tintin.Core.Session.{
  Session, SessionStore, get, add, session_initiator, session_encrypt, empty_store,
}
use tintin.Client.State.{
  TinTinClient, Request, send, fetch_keys, refused, user_not_found, ClientError, Outside, Device,
  Run, from_connection, send_line, recv_line, modify,
}
use tintin.Client.Sending.{
  bundle_from, seal_with, sealed, from_core, request_ok, fetch_bundle, open_session, establish,
  encrypt_for, send_encrypted, content_for, envelope_to, post, transmit, note_sent, record_message,
  send_message, send_receipt,
}

module _ {R B : Type 0} (f : TinTinClient → B) where
  -- The method leaves `f` of the client as it was, on every path.
  abbrev pub Keeps : {A : Type 0} → Run R A → Type 0
  Keeps m = (d : Device R) → f (m d).1.me ≡ f d.me

  continue-Keeps :
      {A C : Type 0} (k : A → Run R C) (r : Result ClientError A) (d : Device R)
      → ((a : A) → Keeps (k a))
      → f (continue r k d).1.me ≡ f d.me
  continue-Keeps k (ok a) d h = h a d
  continue-Keeps k (err e) d h = refl

  pub then-Keeps :
      {A C : Type 0} (m : Run R A) (k : A → Run R C)
      → Keeps m
      → ((a : A) → Keeps (k a))
      → Keeps (m >>= k)
  then-Keeps m k first rest d = continue-Keeps k (m d).0 (m d).1 rest ∙ first d

-- the client without what sending changes
abbrev pub beside : TinTinClient → TinTinClient
beside me = record me { sessions = empty_store; sent_messages = []; chat_log = [] }

-- the client without its sessions
abbrev pub messages_of : TinTinClient → TinTinClient
messages_of me = record me { sessions = empty_store }

module _ {R B : Type 0} (f : TinTinClient → B) where
  from_connection-Keeps :
      {A : Type 0} (o : Outside R) (d : Device R) (x : Result String A × R)
      → f (from_connection o d x).1.me ≡ f d.me
  from_connection-Keeps o d (ok a, r) = refl
  from_connection-Keeps o d (err e, r) = refl

  pub from_core-Keeps : {A : Type 0} (x : Result TinTinError A) → Keeps f (from_core {R = R} x)
  unfolding from_core
  from_core-Keeps (ok a) d = refl
  from_core-Keeps (err e) d = refl

module _ {R B : Type 0} (f : TinTinClient → B) where
  bundle_kept : (x : Result String PreKeyBundle) (d : Device R) → f (bundle_from x d).1.me ≡ f d.me
  bundle_kept (ok bundle) d = refl
  bundle_kept (err e) d = refl

module _ {R B : Type 0} (o : Outside R) (f : TinTinClient → B) where
  pub send_line-Keeps : (request : Request) → Keeps f (send_line o request)
  send_line-Keeps request d = from_connection-Keeps f o d (o.send_json request d.relay)

  pub recv_line-Keeps : Keeps f (recv_line o)
  recv_line-Keeps d = from_connection-Keeps f o d (o.recv_json d.relay)

  pub checked-Keeps :
      {A : Type 0} (t : Bool) (yes_run no_run : Run R A)
      → Keeps f yes_run
      → Keeps f no_run
      → Keeps f (if t then yes_run else no_run)
  checked-Keeps true yes_run no_run h k = h
  checked-Keeps false yes_run no_run h k = k

  pub request_ok-Keeps : (what : String) (request : Request) → Keeps f (request_ok o what request)
  unfolding request_ok
  request_ok-Keeps what request =
      then-Keeps f (send_line o request >> recv_line o) _
        (then-Keeps f (send_line o request) (λ _. recv_line o) (send_line-Keeps request)
          (λ _. recv_line-Keeps))
        (λ resp.
          checked-Keeps (resp.status == "ok") (pure resp) (raise (refused what resp.error))
            (λ d. refl) (λ d. refl))

  pub send_receipt-Keeps :
      (recipient sender : String) (timestamp : ℕ) (receipt_type : ReceiptType)
      → Keeps f (send_receipt o recipient sender timestamp receipt_type)
  unfolding send_receipt envelope_to
  send_receipt-Keeps recipient sender timestamp receipt_type d =
      let envelope =
        new_envelope (o.millis d.looks) d.me.user_id recipient
          (o.codec.receipt_to_vec (record {
            receipt_type = receipt_type;
            original_sender = sender;
            original_timestamp = timestamp;
          }))
          receipt in
      then-Keeps f (send_line o (send envelope)) (λ _. recv_line o >>= λ resp. pure tt)
        (send_line-Keeps (send envelope))
        (λ _. then-Keeps f (recv_line o) (λ resp. pure tt) recv_line-Keeps (λ resp e. refl))
        (record d { looks = suc d.looks })

  pub fetch_bundle-Keeps : (user : String) → Keeps f (fetch_bundle o user)
  unfolding fetch_bundle
  fetch_bundle-Keeps user =
      then-Keeps f (send_line o (fetch_keys user) >> recv_line o) _
        (then-Keeps f (send_line o (fetch_keys user)) (λ _. recv_line o)
          (send_line-Keeps (fetch_keys user)) (λ _. recv_line-Keeps))
        (λ resp.
          checked-Keeps (resp.status == "ok") (bundle_from resp.signed_pre_key)
            (raise (user_not_found user)) (bundle_kept f resp.signed_pre_key) (λ d. refl))

module _ {R B : Type 0} (o : Outside R) (f : TinTinClient → B)
    (blind : (me : TinTinClient) → f (messages_of me) ≡ f me) where
  sessions_apart :
      (me : TinTinClient) (store : SessionStore) → f (record me { sessions = store }) ≡ f me
  sessions_apart me store = sym (blind (record me { sessions = store })) ∙ blind me

  open_session-Keeps :
      (recipient : String) (bundle : PreKeyBundle) → Keeps f (open_session o recipient bundle)
  unfolding open_session
  open_session-Keeps recipient bundle d =
      let opened =
        session_initiator o.crypto (o.draw d.looks) d.me.identity recipient 1 bundle.identity_key
          bundle.signed_pre_key in
      then-Keeps f (from_core opened)
        (λ (session : Session).
          modify (λ me. record me { sessions = add me.sessions session }) >> pure true)
        (from_core-Keeps f opened) (λ session e. sessions_apart e.me (add e.me.sessions session))
        (record d { looks = suc d.looks })

  pub establish-Keeps : (recipient : String) → Keeps f (establish o recipient)
  unfolding establish
  establish-Keeps recipient d = elim (Option-cases (get d.me.sessions recipient 1)) [
    | inl absent ↦
        rw (absent, establish)
          (then-Keeps f (fetch_bundle o recipient) (λ bundle. open_session o recipient bundle)
            (fetch_bundle-Keeps o f recipient) (open_session-Keeps recipient) d)
    | inr (session, present) ↦ rw (present, establish) refl
  ]

  sealed-Keeps :
      (recipient : String) (is_new : Bool) (x : Result TinTinError SessionMessage × Session)
      → Keeps f (sealed o recipient is_new x)
  sealed-Keeps recipient is_new (ok encrypted, session) d = sessions_apart d.me _
  sealed-Keeps recipient is_new (err e, session) d = sessions_apart d.me _

  seal_with-Keeps :
      (recipient : String) (is_new : Bool) (plaintext nonce : Bytes) (session : Option Session)
      → Keeps f (seal_with o recipient is_new plaintext nonce session)
  seal_with-Keeps recipient is_new plaintext nonce none d = refl
  seal_with-Keeps recipient is_new plaintext nonce (some session) d =
      sealed-Keeps recipient is_new (session_encrypt o.crypto nonce plaintext session) d

  pub encrypt_for-Keeps :
      (recipient : String) (is_new : Bool) (plaintext : Bytes)
      → Keeps f (encrypt_for o recipient is_new plaintext)
  unfolding encrypt_for
  encrypt_for-Keeps recipient is_new plaintext d =
      seal_with-Keeps recipient is_new plaintext (o.draw d.looks) (get d.me.sessions recipient 1)
        (record d { looks = suc d.looks })

  pub send_encrypted-Keeps :
      (recipient : String) (plaintext : Bytes) → Keeps f (send_encrypted o recipient plaintext)
  unfolding send_encrypted
  send_encrypted-Keeps recipient plaintext =
      then-Keeps f (establish o recipient) (λ is_new. encrypt_for o recipient is_new plaintext)
        (establish-Keeps recipient) (λ is_new. encrypt_for-Keeps recipient is_new plaintext)

  pub content_for-Keeps :
      (recipient plaintext : String) → Keeps f (content_for o recipient plaintext)
  unfolding content_for
  content_for-Keeps recipient plaintext d = elim (Bool-cases (recipient == d.me.user_id)) [
    | inl own ↦ rw own refl
    | inr other ↦ rw other (send_encrypted-Keeps recipient (o.codec.as_bytes plaintext) d)
  ]

  pub envelope_to-Keeps :
      (recipient : String) (content : Bytes × MessageType)
      → Keeps f (envelope_to o recipient content)
  unfolding envelope_to
  envelope_to-Keeps recipient (content, msg_type) d = refl

  pub post-Keeps :
      (recipient : String) (content : Bytes × MessageType) → Keeps f (post o recipient content)
  unfolding post
  post-Keeps recipient content =
      then-Keeps f (envelope_to o recipient content)
        (λ envelope. request_ok o "Send failed" (send envelope) >> pure envelope)
        (envelope_to-Keeps recipient content)
        (λ envelope.
          then-Keeps f (request_ok o "Send failed" (send envelope)) (λ _. pure envelope)
            (request_ok-Keeps o f "Send failed" (send envelope)) (λ _ d. refl))

  pub transmit-Keeps : (recipient plaintext : String) → Keeps f (transmit o recipient plaintext)
  unfolding transmit
  transmit-Keeps recipient plaintext =
      then-Keeps f (content_for o recipient plaintext) (λ content. post o recipient content)
        (content_for-Keeps recipient plaintext) (post-Keeps recipient)

module _ {R : Type 0} (o : Outside R) where
  note_sent-Keeps :
      (recipient plaintext : String) (envelope : Envelope)
      → Keeps beside (note_sent o recipient plaintext envelope)
  unfolding note_sent record_message
  note_sent-Keeps recipient plaintext envelope d = refl

  -- Sending touches the sessions, the sent messages and the chat log only, on every path.
  pub send_message-Keeps :
      (recipient plaintext : String) → Keeps beside (send_message o recipient plaintext)
  unfolding send_message
  send_message-Keeps recipient plaintext =
      then-Keeps beside (transmit o recipient plaintext)
        (λ envelope. note_sent o recipient plaintext envelope)
        (transmit-Keeps o beside (λ me. refl) recipient plaintext)
        (note_sent-Keeps recipient plaintext)
