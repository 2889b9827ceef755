-- ===== src/Client/Wire.antt =====
-- What tintin-cli/src/main.rs reads and writes inside an encrypted message: JSON objects with a
-- `__tintin_type`, and base64. Both are other crates': the functions here are their parameters.
use tintin.Prelude.{ℕ, ◌≡◌, Bool, String, Option, none, some, Result, ok}
use tintin.Core.Crypto.{Bytes}

-- One JSON object. For each key that the client uses, what `get(key)` with `as_str`, `as_u64` or
-- `as_bool` finds: nothing where the key is missing or its value has another type.
pub record Payload : Type 0 where
  pub tintin_type : Option String
  pub file_id : Option String
  pub file_name : Option String
  pub file_size : Option ℕ
  pub total_chunks : Option ℕ
  pub chunk_index : Option ℕ
  pub body : Option String  -- `data`
  pub is_image : Option Bool
  pub thumbnail : Option String
  pub original_timestamp : Option ℕ
  pub new_text : Option String
  pub group_id : Option String
  pub group_name : Option String
  pub channel_id : Option ℕ
  pub channel_name : Option String
  pub text : Option String
  pub question : Option String
  pub emoji : Option String
  pub call_id : Option String
  pub media_key_pub : Option String
  pub reason : Option String
  pub seq : Option ℕ
  pub total : Option ℕ
  pub nonce : Option String
  pub end_of_stream : Option Bool

abbrev pub blank : Payload
blank = record {
  tintin_type = none;
  file_id = none;
  file_name = none;
  file_size = none;
  total_chunks = none;
  chunk_index = none;
  body = none;
  is_image = none;
  thumbnail = none;
  original_timestamp = none;
  new_text = none;
  group_id = none;
  group_name = none;
  channel_id = none;
  channel_name = none;
  text = none;
  question = none;
  emoji = none;
  call_id = none;
  media_key_pub = none;
  reason = none;
  seq = none;
  total = none;
  nonce = none;
  end_of_stream = none;
}

-- serde_json on such objects. `from_slice` finds nothing where the bytes are no JSON.
pub record PayloadJson : Type 0 where
  pub to_vec : Payload → Bytes
  pub to_string : Payload → String
  pub from_slice : Bytes → Option Payload

-- `unwrap_or`
abbrev pub unwrap_or : {A : Type 0} → A → Option A → A
unwrap_or default none = default
unwrap_or default (some a) = a

-- The base64 crate's standard engine.
pub record Base64 : Type 0 where
  pub encode : Bytes → String
  pub decode : String → Result String Bytes

-- serde_json reads back what it wrote.
pub record Reads (json : PayloadJson) : Type 0 where
  pub from_slice-to_vec : (p : Payload) → json.from_slice (json.to_vec p) ≡ some p

-- base64 decodes what it encoded.
pub record Decodes (base64 : Base64) : Type 0 where
  pub decode-encode : (bytes : Bytes) → base64.decode (base64.encode bytes) ≡ ok bytes
