-- ===== src/Client/Toy/Devices.antt =====
-- Two clients and a relay that accepts everything, for the tests of the client.
use tintin.Prelude.{
  ℕ, suc, ◌+◌, refl, sym, false, [], ◌∷◌, Option, none, some, ok, err, arith, text_eq, Result,
}
use tintin.Core.Crypto.{Bytes, Crypto, Sound}
use tintin.Core.Error.{invalid_message}
use tintin.Core.Message.{Envelope, receipt, ReceiptContent, ReceiptType, PreKeyBundle}
use tintin.Core.Session.{empty_store}
use tintin.Client.Files.{FileInfo}
use tintin.Client.State.{
  TinTinClient, sent, ActiveCall, Codec, Outside, Device, Response, GroupInfo, no_downloads,
  ClientError,
}
use tintin.Client.Codecs.{Faithful, Readable}
use tintin.Client.Sending.{transmit}
use tintin.Core.Ratchet.InSync.{Total}
use tintin.Core.Keys.{IdentityKeyPair, generate_signed_pre_key}
use tintin.Client.Calls.{new_call}
use tintin.Client.Calls.Handshake.{Sized}
use tintin.Client.Toy.{toy_json_text, toy_json}
use tintin.Client.Toy.Codes.{to_codes, from_codes, from_codes-to_codes}
use tintin.Client.Toy.Codings.{
  toy_pre_key_to_vec, toy_pre_key_from_slice, toy_pre_key_read, toy_hex, toy_unhex,
  toy_unhex-toy_hex, toy_base64,
}

unfoldable pub sum : Bytes → ℕ
sum [] = 0
sum (x ∷ xs) = x + sum xs

-- a public key is the secret's sum in 32 bytes
unfoldable pub toy : Crypto
unfolding sum
toy = record {
  public_of = λ secret.
      sum secret
      ∷ 0
      ∷ 0
      ∷ 0
      ∷ 0
      ∷ 0
      ∷ 0
      ∷ 0
      ∷ 0
      ∷ 0
      ∷ 0
      ∷ 0
      ∷ 0
      ∷ 0
      ∷ 0
      ∷ 0
      ∷ 0
      ∷ 0
      ∷ 0
      ∷ 0
      ∷ 0
      ∷ 0
      ∷ 0
      ∷ 0
      ∷ 0
      ∷ 0
      ∷ 0
      ∷ 0
      ∷ 0
      ∷ 0
      ∷ 0
      ∷ 0
      ∷ [];
  diffie_hellman = λ secret public. (sum secret + sum public) ∷ [];
  sha256 = λ text. text;
  sha512 = λ text. text;
  hkdf_expand = λ salt ikm info n. ikm;
  seal = λ key nonce text. ok text;
  unseal = λ key nonce text. ok text;
}

pub toy-Sound : Sound toy
unfolding toy sum
toy-Sound = record {
  agreement = λ a b. ground arith;
  unseal-seal = λ key nonce plaintext text e. sym e;
}

pub toy-Sized : Sized toy
unfolding toy
toy-Sized = record { length-public_of = λ secret. refl }

unfoldable pub toy_receipt : Bytes → Option ReceiptContent
toy_receipt [] = none
toy_receipt (t ∷ bytes) =
    some (record {
      receipt_type = ReceiptType.read;
      original_sender = "alice";
      original_timestamp = t;
    })

unfoldable pub toy_codec : Codec
unfolding toy_receipt
toy_codec = record {
  payloads = toy_json;
  base64 = toy_base64;
  as_bytes = to_codes;
  from_utf8_lossy = from_codes;
  hex_encode = toy_hex;
  hex_decode = toy_unhex;
  message_to_json = λ m. [];
  message_from_json = λ b. err (invalid_message "none");
  pre_key_to_vec = toy_pre_key_to_vec;
  pre_key_from_slice = toy_pre_key_from_slice;
  receipt_to_vec = λ r. r.original_timestamp ∷ [];
  receipt_from_slice = toy_receipt;
  decimal = λ n. "7";
  picture = "*";
}

pub toy_codec-Faithful : Faithful toy_codec
unfolding toy_codec
toy_codec-Faithful = record {
  payload_read = toy_json_text;
  hex_decode-hex_encode = toy_unhex-toy_hex;
}

abbrev pub friends : GroupInfo
friends = record { group_id = "g1"; name = "Friends"; creator = "bob"; role = "member" }

abbrev pub toy_answer : Response
toy_answer = record {
  status = "ok";
  error = "";
  signed_pre_key = err "none";
  messages = [];
  users = [];
  group_id = none;
  groups = some (some friends ∷ none ∷ []);
  members = some "alice" ∷ none ∷ some "bob" ∷ [];
  channel_id = some 4;
  channels = [];
}

-- the state of the connection counts the lines
abbrev pub toy_outside : Outside ℕ
toy_outside = record {
  crypto = toy;
  codec = toy_codec;
  draw = λ n. (n + 5) ∷ [];
  millis = λ n. 1000 + n;
  send_json = λ request n. (ok tt, suc n);
  recv_json = λ n. (ok toy_answer, n);
}

abbrev pub alice : TinTinClient
alice = record {
  user_id = "alice";
  identity = record { key_pair = record { secret = 1 ∷ []; public = 1 ∷ [] } };
  signed_pre_key = record {
    id = 1;
    key_pair = record { secret = 2 ∷ []; public = 2 ∷ [] };
    signature = [];
  };
  sessions = empty_store;
  sent_messages =
      record { recipient = "bob"; text = "hello"; timestamp = 77; status = sent; edited = false }
      ∷ [];
  groups = [];
  chat_log = [];
  downloads = no_downloads;
  channels = [];
  active_call = none;
  media = [];
}

abbrev pub device : Device ℕ
device = record { me = alice; looks = 0; relay = 0 }

abbrev pub receipt_from_bob : Envelope
receipt_from_bob = record {
  sender_id = "bob";
  recipient_id = "alice";
  sender_device_id = 1;
  timestamp = 80;
  content = 77 ∷ [];
  msg_type = receipt;
}

abbrev pub note : FileInfo
note = record {
  kind = "file";
  file_id = "18c";
  file_name = "note.txt";
  file_size = 3;
  total_chunks = 1;
  is_image = false;
  thumbnail = none;
}

-- the offer that Alice makes to Bob
unfoldable pub first_offer : ActiveCall
unfolding new_call
first_offer = new_call toy_outside "alice" "bob" 1000 (6 ∷ [])

pub toy_codec-Readable : Readable toy_codec
unfolding toy_codec
toy_codec-Readable = record {
  pre_key_read = toy_pre_key_read;
  from_utf8_lossy-as_bytes = from_codes-to_codes;
}

pub toy-Total : Total toy
unfolding toy
toy-Total = record { seals = λ key nonce plaintext. (plaintext, refl) }

abbrev pub bob_identity : IdentityKeyPair
bob_identity = record { key_pair = record { secret = 3 ∷ []; public = 3 ∷ [] } }

unfoldable pub bob : Device ℕ
unfolding generate_signed_pre_key
bob = record device {
  me = record alice {
    user_id = "bob";
    identity = bob_identity;
    signed_pre_key = generate_signed_pre_key toy 1 bob_identity (9 ∷ []);
  };
}

unfoldable pub bundle_of_bob : PreKeyBundle
unfolding bob
bundle_of_bob = record {
  identity_key = 3 ∷ [];
  device_id = 1;
  signed_pre_key_id = 1;
  signed_pre_key = bob.me.signed_pre_key.key_pair.public;
  signed_pre_key_signature = [];
  one_time_pre_key_id = none;
  one_time_pre_key = none;
}

-- a relay that hands out the bundle of Bob
unfoldable pub toy_relay : Outside ℕ
unfolding bundle_of_bob
toy_relay = record toy_outside {
  recv_json = λ n. (ok (record toy_answer { signed_pre_key = ok bundle_of_bob }), n);
}

abbrev pub no_envelope : Envelope
no_envelope = receipt_from_bob

unfoldable pub sent_or : Result ClientError Envelope → Envelope
sent_or (ok envelope) = envelope
sent_or (err e) = no_envelope

-- what Alice's client sends
unfoldable pub first_to_bob : Envelope
unfolding sent_or transmit
first_to_bob = sent_or (transmit toy_relay "bob" "hi" device).0
