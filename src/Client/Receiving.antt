-- ===== src/Client/Receiving.antt =====
-- Receiving, of tintin-cli/src/main.rs: one envelope after the other, the chat log and the receipts.
pub mod Receipts
pub mod Batch
pub mod Opening
pub mod Arrival
use tintin.Prelude.{
  ℕ, Bool, true, false, not, ◌&&◌, ◌||◌, String, List, [], ◌∷◌, ◌++◌, Option, none, some, Result,
  ok, err, pure, raise, ◌>>=◌, ◌>>◌, ◌==◌, number_eq, text_eq, if◌then◌else◌,
}
use tintin.Prelude.Texts.{join}
use tintin.Core.Crypto.{Bytes}
use tintin.Core.Error.{TinTinError}
use tintin.Core.Message.{
  Envelope, MessageType, normal, pre_key_bundle, receipt, typing, ReceiptContent, ReceiptType,
  delivery, read as read_receipt, PreKeyBundleMessage, SessionMessage,
}
use tintin.Core.Session.{Session, get, add, session_responder, session_decrypt}
use tintin.Client.Wire.{Payload, unwrap_or}
use tintin.Client.Files.{Downloads, Panic, is_text, process_file_chunk}
use tintin.Client.State.{
  TinTinClient, SentMessage, MessageStatus, sent, delivered, read, Request, receive, Response,
  ClientError, malformed, panicked, Outside, Device, Run, modify, asks,
}
use tintin.Client.Sending.{from_core, request_ok, put_back, record_message, send_receipt}
use tintin.Client.Calls.{process_call_signal, process_media_chunk}

-- What a decrypted message is in the chat log.
pub record Entry : Type 0 where
  pub text : String
  pub group_name : Option String
  pub channel_name : Option String

abbrev pub is_some : {A : Type 0} → Option A → Bool
is_some none = false
is_some (some a) = true

abbrev pub is_call_signal : Payload → Bool
is_call_signal payload =
    is_text "call_offer" payload.tintin_type
    || is_text "call_accept" payload.tintin_type
    || is_text "call_end" payload.tintin_type

-- the change that a receipt makes to a message
abbrev pub status_of : ReceiptType → MessageStatus
status_of delivery = delivered
status_of read_receipt = read

-- the test for the message that a receipt is about
abbrev pub is_receipted : String → ℕ → SentMessage → Bool
is_receipted sender timestamp m = m.recipient == sender && m.timestamp == timestamp

-- `iter_mut().find(..)` and the new status
unfoldable pub mark_first :
    (SentMessage → Bool) → MessageStatus → List SentMessage → List SentMessage
mark_first p status [] = []
mark_first p status (m ∷ ms) =
    let rest = mark_first p status ms in if p m then record m { status = status } ∷ ms else m ∷ rest

module _ {R : Type 0} (o : Outside R) where
  -- a text that is no structured message that the log knows
  abbrev plain : Bytes → Entry
  plain plaintext = record {
    text = o.codec.from_utf8_lossy plaintext;
    group_name = none;
    channel_name = none;
  }

  abbrev entry_for : Bytes → Payload → Entry
  entry_for plaintext payload =
      if is_text "group" payload.tintin_type
      then record {
        text = unwrap_or "" payload.text;
        group_name = some (unwrap_or "Group" payload.group_name);
        channel_name = none;
      }
      else if is_text "channel" payload.tintin_type
      then record {
        text = unwrap_or "" payload.text;
        group_name = none;
        channel_name = some (unwrap_or "Channel" payload.channel_name);
      }
      else if is_text "poll" payload.tintin_type
      then record (plain plaintext) { text = join "[Poll] " (unwrap_or "Poll" payload.question) }
      else if is_text "sticker" payload.tintin_type
      then record (plain plaintext) {
        text = join "[Sticker] " (unwrap_or o.codec.picture payload.emoji);
      }
      else if is_call_signal payload
      then record (plain plaintext) { text = "[Call signal]" }
      else plain plaintext

  unfoldable pub entry_of : Bytes → Entry
  entry_of plaintext = elim (o.codec.payloads.from_slice plaintext) [
    | none ↦ plain plaintext
    | some payload ↦ entry_for plaintext payload
  ]

  unfoldable pub record_decrypted : String → Bytes → Run R (Unit {0})
  unfolding entry_of record_message
  record_decrypted sender plaintext =
      let entry = entry_of plaintext in
      record_message o sender entry.text false (is_some entry.group_name) entry.group_name
        (is_some entry.channel_name) entry.channel_name

  -- `process_file_chunk` on the client; its panic ends the process
  abbrev filed : Device R → Result Panic Bool × Downloads → Result ClientError Bool × Device R
  filed d (ok is_chunk, s) = (ok is_chunk, record d { me = record d.me { downloads = s } })
  filed d (err panic, s) = (err panicked, record d { me = record d.me { downloads = s } })

  unfoldable pub take_file_chunk : String → Bytes → Run R Bool
  unfolding process_file_chunk
  take_file_chunk sender plaintext d =
      filed d (process_file_chunk o.codec.payloads o.codec.base64 sender plaintext d.me.downloads)

  -- a text that is no call signal: a chunk of a file, or an entry of the chat log
  unfoldable pub take_text : String → Bytes → Run R (Unit {0})
  unfolding take_file_chunk record_decrypted
  take_text sender plaintext = take_file_chunk sender plaintext >>= λ is_chunk.
      if is_chunk then pure tt else record_decrypted sender plaintext

  -- `send_receipt(..).await.ok()`
  abbrev ignored :
      {A : Type 0} → Result ClientError A × Device R → Result ClientError (Unit {0}) × Device R
  ignored (r, d) = (ok tt, d)

  unfoldable pub acknowledge : Envelope → Run R (Unit {0})
  unfolding send_receipt
  acknowledge envelope d =
      ignored
        (send_receipt o envelope.sender_id envelope.sender_id envelope.timestamp read_receipt d)

  -- The text of the first message of a session; only here are media chunks looked at.
  unfoldable pub take_first : Envelope → Bytes → Run R (Unit {0})
  unfolding process_call_signal process_media_chunk take_text acknowledge
  take_first envelope plaintext =
      process_call_signal o envelope.sender_id plaintext >>= λ is_signal.
      (if is_signal
        then pure tt
        else process_media_chunk o envelope.sender_id plaintext
          >> take_text envelope.sender_id plaintext)
      >> acknowledge envelope

  -- the text of a later message
  unfoldable pub take_next : Envelope → Bytes → Run R (Unit {0})
  unfolding process_call_signal take_text acknowledge
  take_next envelope plaintext = process_call_signal o envelope.sender_id plaintext >>= λ is_signal.
      (if is_signal then pure tt else take_text envelope.sender_id plaintext)
      >> acknowledge envelope

  -- The session is kept only if it opened its first message.
  abbrev begin_session : Envelope → Result TinTinError Bytes × Session → Run R (Unit {0})
  begin_session envelope (err e, session) = pure tt
  begin_session envelope (ok plaintext, session) =
      modify (λ me. record me { sessions = add me.sessions session })
      >> take_first envelope plaintext

  abbrev first_message : Envelope → Result String PreKeyBundleMessage → Run R (Unit {0})
  first_message envelope (err e) d = (err (malformed e), d)
  first_message envelope (ok prekey) d =
      (from_core (
            session_responder o.crypto d.me.identity envelope.sender_id envelope.sender_device_id
              prekey.identity_key prekey.base_key d.me.signed_pre_key)
          >>= λ session.
              begin_session envelope (session_decrypt o.crypto prekey.session_message session))
        d

  abbrev go_on_with : Envelope → Result TinTinError Bytes × Session → Run R (Unit {0})
  go_on_with envelope (err e, session) =
      modify (λ me. record me { sessions = put_back envelope.sender_id session me.sessions })
  go_on_with envelope (ok plaintext, session) =
      modify (λ me. record me { sessions = put_back envelope.sender_id session me.sessions })
      >> take_next envelope plaintext

  abbrev in_session : Envelope → SessionMessage → Option Session → Run R (Unit {0})
  in_session envelope message none = pure tt
  in_session envelope message (some session) =
      go_on_with envelope (session_decrypt o.crypto message session)

  abbrev later_message : Envelope → Result TinTinError SessionMessage → Run R (Unit {0})
  later_message envelope (err e) d = (ok tt, d)
  later_message envelope (ok message) d =
      in_session envelope message (get d.me.sessions envelope.sender_id 1) d

  abbrev pub receipted : Envelope → Option ReceiptContent → TinTinClient → TinTinClient
  receipted envelope none me = me
  receipted envelope (some content) me = record me {
    sent_messages =
        mark_first (is_receipted envelope.sender_id content.original_timestamp)
          (status_of content.receipt_type) me.sent_messages;
  }

  -- a message of one's own, that was not encrypted
  unfoldable pub take_saved : Envelope → Run R (Unit {0})
  unfolding record_message
  take_saved envelope d =
      record_message o d.me.user_id (o.codec.from_utf8_lossy envelope.content) false false none
        false none d

  -- the body of the loop of `receive_messages`
  unfoldable pub take_envelope : Envelope → Run R (Unit {0})
  unfolding take_first take_next take_saved put_back mark_first from_core
  take_envelope envelope d = elim envelope.msg_type [
    | pre_key_bundle ↦ first_message envelope (o.codec.pre_key_from_slice envelope.content) d
    | normal ↦
        if envelope.sender_id == d.me.user_id
        then take_saved envelope d
        else later_message envelope (o.codec.message_from_json envelope.content) d
    | receipt ↦ modify (receipted envelope (o.codec.receipt_from_slice envelope.content)) d
    | typing ↦ (ok tt, d)
  ]

  -- the loop; an envelope that serde_json does not read ends it
  unfoldable pub take_all : List (Result String Envelope) → Run R (Unit {0})
  unfolding take_envelope
  take_all [] = pure tt
  take_all (err e ∷ rest) = raise (malformed e)
  take_all (ok envelope ∷ rest) = take_envelope envelope >> take_all rest

  unfoldable pub receive_messages : Run R (Unit {0})
  unfolding request_ok take_all
  receive_messages = asks (λ me. me.user_id) >>= λ user_id.
      request_ok o "Receive failed" (receive user_id) >>= λ resp. take_all resp.messages
