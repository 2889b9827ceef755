-- ===== src/Client/Sending/Outcome.antt =====
-- What a sent message leaves in the client, whether or not the relay takes it.
use tintin.Prelude.{
  ℕ, ◌≡◌, refl, ap, false, String, [], ◌∷◌, ◌++◌, none, Result, ok, err, continue, ◌⊎◌, inl, inr,
}
use tintin.Core.Message.{Envelope}
use tintin.Client.State.{
  TinTinClient, SentMessage, sent, MessageRecord, outgoing, ClientError, Outside, Device,
}
use tintin.Client.Sending.{transmit, note_sent, record_message, send_message}
use tintin.Client.Sending.Frame.{messages_of, transmit-Keeps}

abbrev sent_text : String → String → ℕ → SentMessage
sent_text recipient text timestamp = record {
  recipient = recipient;
  text = text;
  timestamp = timestamp;
  status = sent;
  edited = false;
}

abbrev said : String → String → ℕ → MessageRecord
said recipient text timestamp = record {
  peer = recipient;
  text = text;
  timestamp = timestamp;
  direction = outgoing;
  is_group = false;
  group_name = none;
  is_channel = false;
  channel_name = none;
  edited = false;
}

module _ {R : Type 0} (o : Outside R) (recipient text : String) where
  -- The message is tracked and logged, once, with the time of its envelope and of the entry.
  abbrev pub IsNoted : Device R → Result ClientError (Unit {0}) × Device R → Type 0
  IsNoted d (r, after) =
      (timestamp logged_at : ℕ) × (r ≡ ok tt)
      × (after.me.sent_messages ≡ d.me.sent_messages ++ sent_text recipient text timestamp ∷ [])
      × (after.me.chat_log ≡ d.me.chat_log ++ said recipient text logged_at ∷ [])

  -- The method failed, and neither list has changed.
  abbrev pub IsForgotten : Device R → Result ClientError (Unit {0}) × Device R → Type 0
  IsForgotten d (r, after) =
      (e : ClientError) × (r ≡ err e)
      × (after.me.sent_messages ≡ d.me.sent_messages)
      × (after.me.chat_log ≡ d.me.chat_log)

  note_outcome :
      (d : Device R) (x : Result ClientError Envelope × Device R)
      → messages_of x.1.me ≡ messages_of d.me
      → IsNoted d (continue x.0 (λ envelope. note_sent o recipient text envelope) x.1)
        ⊎ IsForgotten d (continue x.0 (λ envelope. note_sent o recipient text envelope) x.1)
  unfolding note_sent record_message
  note_outcome d (err e, after) kept =
      inr (e, refl, ap (λ me. me.sent_messages) kept, ap (λ me. me.chat_log) kept)
  note_outcome d (ok envelope, after) kept = inl (
    envelope.timestamp,
    o.millis after.looks,
    refl,
    ap (λ (me : TinTinClient). me.sent_messages ++ sent_text recipient text envelope.timestamp ∷ [])
        kept,
    ap (λ (me : TinTinClient). me.chat_log ++ said recipient text (o.millis after.looks) ∷ []) kept,
  )

  -- Sending a message either returns, and one sent message, not yet delivered, and one outgoing entry
  -- of the chat log are added behind the others, with its text and recipient; or it fails, and the
  -- sent messages and the chat log are as they were.
  pub send_message-IsNoted :
      (d : Device R)
      → IsNoted d (send_message o recipient text d)
        ⊎ IsForgotten d (send_message o recipient text d)
  unfolding send_message
  send_message-IsNoted d =
      note_outcome d (transmit o recipient text d)
        (transmit-Keeps o messages_of (λ me. refl) recipient text d)
