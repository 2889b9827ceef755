-- ===== src/Core/Message.antt =====
-- tintin-core/src/message.rs. Reading the clock is an argument of `new_envelope`; the JSON forms
-- are serde_json's.
use tintin.Prelude.{ℕ, ◌≡◌, ◌↔◌, Bool, true, false, String, Option, PartialEq, arith}
use tintin.Core.Crypto.{Bytes}

pub record SessionMessage : Type 0 where
  pub version : ℕ
  pub ciphertext : Bytes
  pub nonce : Bytes
  pub ratchet_key : Bytes
  pub message_number : ℕ

pub data MessageType : Type 0 where
  normal pre_key_bundle receipt typing : MessageType

abbrev message_type_beq : MessageType → MessageType → Bool
message_type_beq normal normal = true
message_type_beq pre_key_bundle pre_key_bundle = true
message_type_beq receipt receipt = true
message_type_beq typing typing = true
message_type_beq _ _ = false

pub message_type_beq_iff : (a b : MessageType) → (message_type_beq a b ≡ true) ↔ (a ≡ b)
message_type_beq_iff normal b = ground arith
message_type_beq_iff pre_key_bundle b = ground arith
message_type_beq_iff receipt b = ground arith
message_type_beq_iff typing b = ground arith

instance abbrev pub message_type_eq : PartialEq MessageType
message_type_eq = record { same = message_type_beq; same_iff = message_type_beq_iff }

pub record Envelope : Type 0 where
  pub sender_id : String
  pub recipient_id : String
  pub sender_device_id : ℕ
  pub timestamp : ℕ
  pub content : Bytes
  pub msg_type : MessageType

pub data ReceiptType : Type 0 where
  delivery read : ReceiptType

pub record ReceiptContent : Type 0 where
  pub receipt_type : ReceiptType
  pub original_sender : String
  pub original_timestamp : ℕ

pub record PreKeyBundle : Type 0 where
  pub identity_key : Bytes
  pub device_id : ℕ
  pub signed_pre_key_id : ℕ
  pub signed_pre_key : Bytes
  pub signed_pre_key_signature : Bytes
  pub one_time_pre_key_id : Option ℕ
  pub one_time_pre_key : Option Bytes

-- The first message to a peer: the sender's keys, and the message itself.
pub record PreKeyBundleMessage : Type 0 where
  pub identity_key : Bytes
  pub base_key : Bytes
  pub session_message : SessionMessage

-- `millis` is the reading of the clock, in milliseconds since the epoch.
unfoldable pub new_envelope : ℕ → String → String → Bytes → MessageType → Envelope
new_envelope millis sender_id recipient_id content msg_type = record {
  sender_id = sender_id;
  recipient_id = recipient_id;
  sender_device_id = 1;
  timestamp = millis;
  content = content;
  msg_type = msg_type;
}

-- The JSON text of an envelope, as the relay stores and reads it. `to_string` is empty where
-- serde_json fails (`unwrap_or_default`).
pub record EnvelopeJson : Type 0 where
  pub to_string : Envelope → String
  pub from_str : String → Option Envelope
  pub receipt_to_vec : ReceiptContent → Bytes

-- serde_json reads back what it wrote.
pub record ReadsBack (j : EnvelopeJson) : Type 0 where
  pub from_str-to_string : (e : Envelope) → j.from_str (j.to_string e) ≡ Option.some e
