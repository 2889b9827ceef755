-- ===== src/Server/Messages.antt =====
-- The message queue of tintin-server/src/store.rs.
pub mod Mailbox
pub mod Faults
use tintin.Prelude.{
  ℕ, ◌+◌, suc, ◌≡◌, refl, Bool, ◌||◌, String, List, [], ◌∷◌, ◌++◌, Option, none, some, pure, ◌>>=◌,
  ◌>>◌, if◌then◌else◌, ◌==◌, text_eq,
}
use tintin.Prelude.Rows.{select, delete}
use tintin.Prelude.Rows.Order.{order_by}
use tintin.Prelude.Rows.Numbered.{id_le}
use tintin.Core.Message.{
  Envelope, EnvelopeJson, MessageType, normal, pre_key_bundle, receipt, ReceiptContent, delivery,
  new_envelope, message_type_eq,
}
use tintin.Server.Db.{Tables, MessageRow, Db, query, execute, when}

abbrev pub is_to : String → MessageRow → Bool
is_to user_id row = row.recipient_id == user_id

abbrev pub with_message : String → String → String → Tables → Tables
with_message sender_id recipient_id text t = record t {
  messages =
      t.messages
      ++ record {
        id = t.message_seq + 1;
        sender_id = sender_id;
        recipient_id = recipient_id;
        envelope = text;
      }
        ∷ [];
  message_seq = t.message_seq + 1;
}

-- `Normal` and `PreKeyBundle` messages are receipted, and no others.
abbrev pub is_receipted : Envelope → Bool
is_receipted msg = msg.msg_type == normal || msg.msg_type == pre_key_bundle

module _ (j : EnvelopeJson) where
  unfoldable pub queue_message : Envelope → Db (Unit {0})
  queue_message envelope =
      execute (with_message envelope.sender_id envelope.recipient_id (j.to_string envelope))

  -- the envelopes among the texts
  unfoldable pub decode_all : List MessageRow → List Envelope
  decode_all [] = []
  decode_all (row ∷ rows) = elim (j.from_str row.envelope) [
    | some env ↦ env ∷ decode_all rows
    | none ↦ decode_all rows
  ]

  -- `millis` is the reading of the clock in `Envelope::new`
  unfoldable pub receipt_for : ℕ → String → Envelope → Envelope
  unfolding new_envelope
  receipt_for millis user_id msg =
      new_envelope millis user_id msg.sender_id
        (j.receipt_to_vec (record {
          receipt_type = delivery;
          original_sender = msg.sender_id;
          original_timestamp = msg.timestamp;
        }))
        receipt

  -- `clock i` is the reading for the i-th message
  unfoldable pub queue_receipts : (ℕ → ℕ) → String → List Envelope → Db (Unit {0})
  queue_receipts clock user_id [] = pure tt
  queue_receipts clock user_id (msg ∷ rest) = do
    when (is_receipted msg) (
        execute
          (with_message user_id msg.sender_id (j.to_string (receipt_for (clock 0) user_id msg))))
    queue_receipts (λ i. clock (suc i)) user_id rest

  unfoldable pub fetch_messages : (ℕ → ℕ) → String → Db (List Envelope)
  unfolding decode_all queue_receipts
  fetch_messages clock user_id = do
    rows ← query (λ t. order_by (id_le (λ r. r.id)) (select (is_to user_id) t.messages))
    execute (λ t. record t { messages = delete (is_to user_id) t.messages })
    let envelopes = decode_all rows
    queue_receipts clock user_id envelopes
    pure envelopes
