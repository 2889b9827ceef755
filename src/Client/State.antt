-- ===== src/Client/State.antt =====
-- The client of tintin-cli/src/main.rs: what it keeps, and what it takes from outside.
use tintin.Prelude.{ℕ, suc, Bool, String, List, [], Option, none, Result, ok, err, Exec}
use tintin.Prelude.Maps.{HashMap}
use tintin.Core.Crypto.{Bytes, Crypto}
use tintin.Core.Error.{TinTinError}
use tintin.Core.Keys.{
  KeyPair, IdentityKeyPair, SignedPreKey, generate_identity, generate_signed_pre_key,
}
use tintin.Core.Message.{
  Envelope, SessionMessage, ReceiptContent, PreKeyBundle, PreKeyBundleMessage,
}
use tintin.Core.Session.{SessionStore, empty_store}
use tintin.Client.Wire.{PayloadJson, Base64, unwrap_or}
use tintin.Client.Files.{Downloads}

pub data CallState : Type 0 where
  offering ringing connected : CallState

pub record ActiveCall : Type 0 where
  pub peer : String
  pub call_id : String
  pub media_key_pair : KeyPair
  pub peer_media_key : Option Bytes
  pub shared_media_secret : Option Bytes
  pub state : CallState

pub data MessageStatus : Type 0 where
  sent delivered read : MessageStatus

pub record SentMessage : Type 0 where
  pub recipient : String
  pub text : String
  pub timestamp : ℕ
  pub status : MessageStatus
  pub edited : Bool

pub data MessageDirection : Type 0 where
  outgoing incoming : MessageDirection

pub record MessageRecord : Type 0 where
  pub peer : String
  pub text : String
  pub timestamp : ℕ
  pub direction : MessageDirection
  pub is_group : Bool
  pub group_name : Option String
  pub is_channel : Bool
  pub channel_name : Option String
  pub edited : Bool

pub record GroupInfo : Type 0 where
  pub group_id : String
  pub name : String
  pub creator : String
  pub role : String

-- A decrypted piece of a call that was written to disk: who sent it, its number, the bytes.
pub record MediaFile : Type 0 where
  pub sender : String
  pub seq : ℕ
  pub bytes : Bytes

-- `pending_files` and what is written to disk stand in `downloads` and `media`.
pub record TinTinClient : Type 0 where
  pub user_id : String
  pub identity : IdentityKeyPair
  pub signed_pre_key : SignedPreKey
  pub sessions : SessionStore
  pub sent_messages : List SentMessage
  pub groups : HashMap String GroupInfo
  pub chat_log : List MessageRecord
  pub downloads : Downloads
  pub channels : HashMap ℕ String
  pub active_call : Option ActiveCall
  pub media : List MediaFile

pub data Request : Type 0 where
  register : String → Bytes → PreKeyBundle → Request
  fetch_keys : String → Request
  send : Envelope → Request
  receive : String → Request
  list_users : Request
  set_presence : String → String → Request
  create_group : String → String → Request
  join_group leave_group : String → String → Request
  my_groups group_members : String → Request
  create_channel : String → String → Request
  subscribe_channel unsubscribe_channel : ℕ → String → Request
  list_channels : Request
  my_channels : String → Request
  channel_members : ℕ → Request

-- What the client looks up in an answer of the relay; `[]` or nothing where it is not there.
pub record Response : Type 0 where
  pub status : String
  pub error : String
  pub signed_pre_key : Result String PreKeyBundle
  pub messages : List (Result String Envelope)
  pub users : List (Option String × Option String)  -- `user_id`, `presence`
  pub group_id : Option String
  pub groups : Option (List (Option GroupInfo))
  pub members : List (Option String)
  pub channel_id : Option ℕ
  pub channels : List (Option ℕ × Option String)  -- `channel_id`, `name`

-- The errors of the methods, with what their texts quote, and what ends the process.
pub data ClientError : Type 0 where
  connection : String → ClientError
  user_not_found : String → ClientError
  refused : String → String → ClientError  -- what failed, and the relay's error
  malformed : String → ClientError
  core : TinTinError → ClientError
  message_not_found : ℕ → ℕ → ClientError
  already_in_call different_call no_incoming_call no_active_call not_connected no_media_key :
      ClientError
  panicked : ClientError

-- serde_json on the messages of tintin-core, hex, UTF-8, `format!` of a number, and the emoji of a
-- sticker that comes without one (U+1F5BC U+FE0F).
pub record Codec : Type 0 where
  pub payloads : PayloadJson
  pub base64 : Base64
  pub as_bytes : String → Bytes
  pub from_utf8_lossy : Bytes → String
  pub hex_encode : Bytes → String
  pub hex_decode : String → Option Bytes
  pub message_to_json : SessionMessage → Bytes
  pub message_from_json : Bytes → Result TinTinError SessionMessage
  pub pre_key_to_vec : PreKeyBundleMessage → Bytes
  pub pre_key_from_slice : Bytes → Result String PreKeyBundleMessage
  pub receipt_to_vec : ReceiptContent → Bytes
  pub receipt_from_slice : Bytes → Option ReceiptContent
  pub decimal : ℕ → String
  pub picture : String

-- What the client meets at its `n`th look outside: what the random generator draws, what the clock
-- reads in milliseconds, and what the connection in state `R` does with a line.
pub record Outside (R : Type 0) : Type 0 where
  pub crypto : Crypto
  pub codec : Codec
  pub draw : ℕ → Bytes
  pub millis : ℕ → ℕ
  pub send_json : Request → R → Result String (Unit {0}) × R
  pub recv_json : R → Result String Response × R

-- A running client.
pub record Device (R : Type 0) : Type 0 where
  pub me : TinTinClient
  pub looks : ℕ
  pub relay : R

abbrev pub Run : Type 0 → Type 0 → Type 0
Run R A = Exec (Device R) ClientError A

abbrev pub no_downloads : Downloads
no_downloads = record { pending_files = []; written = [] }

-- The files of a user under `.tintin`; nothing where one is missing or is not read.
pub record Saved : Type 0 where
  pub sent_messages : Option (List SentMessage)
  pub groups : Option (HashMap String GroupInfo)
  pub channels : Option (HashMap ℕ String)
  pub chat_log : Option (List MessageRecord)

-- `identity_secret` and `spk_secret` are what the generator draws.
unfoldable pub new_client : Crypto → Saved → String → Bytes → Bytes → TinTinClient
new_client c saved user_id identity_secret spk_secret =
    let identity = generate_identity c identity_secret in
    record {
      user_id = user_id;
      identity = identity;
      signed_pre_key = generate_signed_pre_key c 1 identity spk_secret;
      sessions = empty_store;
      sent_messages = unwrap_or [] saved.sent_messages;
      groups = unwrap_or [] saved.groups;
      chat_log = unwrap_or [] saved.chat_log;
      downloads = no_downloads;
      channels = unwrap_or [] saved.channels;
      active_call = none;
      media = [];
    }

module _ {R : Type 0} where
  -- changes to the client alone
  abbrev pub modify : (TinTinClient → TinTinClient) → Run R (Unit {0})
  modify f d = (ok tt, record d { me = f d.me })

  abbrev pub asks : {A : Type 0} → (TinTinClient → A) → Run R A
  asks f d = (ok (f d.me), d)

module _ {R : Type 0} (o : Outside R) where
  abbrev pub fresh : Run R Bytes
  fresh d = (ok (o.draw d.looks), record d { looks = suc d.looks })

  abbrev pub now : Run R ℕ
  now d = (ok (o.millis d.looks), record d { looks = suc d.looks })

  abbrev pub from_connection :
      {A : Type 0} → Device R → Result String A × R → Result ClientError A × Device R
  from_connection d (ok a, r) = (ok a, record d { relay = r })
  from_connection d (err e, r) = (err (connection e), record d { relay = r })

  abbrev pub send_line : Request → Run R (Unit {0})
  send_line request d = from_connection d (o.send_json request d.relay)

  abbrev pub recv_line : Run R Response
  recv_line d = from_connection d (o.recv_json d.relay)
