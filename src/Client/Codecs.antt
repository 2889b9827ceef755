-- ===== src/Client/Codecs.antt =====
-- What the crates under the client document: what they decode is what they encoded.
use tintin.Prelude.{◌≡◌, some, ok, String}
use tintin.Core.Message.{PreKeyBundleMessage}
use tintin.Core.Crypto.{Bytes}
use tintin.Client.Wire.{Payload}
use tintin.Client.State.{Codec}

pub record Faithful (codec : Codec) : Type 0 where
  pub payload_read :
      (p : Payload)
      → codec.payloads.from_slice (codec.as_bytes (codec.payloads.to_string p)) ≡ some p
  pub hex_decode-hex_encode :
      (bytes : Bytes) → codec.hex_decode (codec.hex_encode bytes) ≡ some bytes

-- The same of the first message to a peer and of UTF-8.
pub record Readable (codec : Codec) : Type 0 where
  pub pre_key_read :
      (m : PreKeyBundleMessage) → codec.pre_key_from_slice (codec.pre_key_to_vec m) ≡ ok m
  pub from_utf8_lossy-as_bytes : (s : String) → codec.from_utf8_lossy (codec.as_bytes s) ≡ s
