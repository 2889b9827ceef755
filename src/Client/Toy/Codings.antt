-- ===== src/Client/Toy/Codings.antt =====
-- A small hex and base64, and byte strings one behind the other, for the tests of the client.
use tintin.Prelude.{
  ℕ, ◌≡◌, refl, ap, number_eq, String, List, [], ◌∷◌, Option, none, some, Result, ok, err, length,
  take, drop, ◌++◌,
}
use tintin.Core.Message.{PreKeyBundleMessage}
use tintin.Core.Crypto.{Bytes}
use tintin.Server.Toy.{put, take_number, take_number-put, put_many, take_many, take_many-put_many}
use tintin.Client.Wire.{Base64, Decodes}

infixl 5 ◌>>=◌
abbrev ◌>>=◌ : {A B : Type 0} → Option A → (A → Option B) → Option B
none >>= f = none
some a >>= f = f a

-- Byte strings one behind the other.
put_bytes : Bytes → Bytes → Bytes
put_bytes bytes rest = length bytes ∷ (bytes ++ rest)

take_bytes : Bytes → Option (Bytes × Bytes)
take_bytes [] = none
take_bytes (n ∷ rest) = some (take n rest, drop n rest)

take-append : (bytes rest : Bytes) → take (length bytes) (bytes ++ rest) ≡ bytes
take-append [] rest = refl
take-append (b ∷ bytes) rest = ap (λ (l : Bytes). b ∷ l) (take-append bytes rest)

drop-append : (bytes rest : Bytes) → drop (length bytes) (bytes ++ rest) ≡ rest
drop-append [] rest = refl
drop-append (b ∷ bytes) rest = drop-append bytes rest

take_bytes-put_bytes : (bytes rest : Bytes) → take_bytes (put_bytes bytes rest) ≡ some (bytes, rest)
unfolding take_bytes put_bytes
take_bytes-put_bytes bytes rest = λ i. some (take-append bytes rest i, drop-append bytes rest i)

take_one : Bytes → Option (ℕ × Bytes)
take_one [] = none
take_one (n ∷ rest) = some (n, rest)

pub toy_pre_key_to_vec : PreKeyBundleMessage → Bytes
unfolding put_bytes
toy_pre_key_to_vec m = put_bytes m.identity_key (
    put_bytes m.base_key (
      put_bytes m.session_message.ciphertext (
        put_bytes m.session_message.nonce (
          put_bytes m.session_message.ratchet_key
            (m.session_message.version ∷ m.session_message.message_number ∷ [])))))

toy_pre_key : Bytes → Option PreKeyBundleMessage
toy_pre_key bytes = do
  (identity_key, b1) ← take_bytes bytes
  (base_key, b2) ← take_bytes b1
  (ciphertext, b3) ← take_bytes b2
  (nonce, b4) ← take_bytes b3
  (ratchet_key, b5) ← take_bytes b4
  (version, b6) ← take_one b5
  (message_number, b7) ← take_one b6
  some (record {
    identity_key = identity_key;
    base_key = base_key;
    session_message = record {
      version = version;
      ciphertext = ciphertext;
      nonce = nonce;
      ratchet_key = ratchet_key;
      message_number = message_number;
    };
  })

or_unread : Option PreKeyBundleMessage → Result String PreKeyBundleMessage
or_unread none = err "no message"
or_unread (some m) = ok m

pub toy_pre_key_from_slice : Bytes → Result String PreKeyBundleMessage
unfolding or_unread toy_pre_key
toy_pre_key_from_slice bytes = or_unread (toy_pre_key bytes)

toy_pre_key_lem : (m : PreKeyBundleMessage) → toy_pre_key (toy_pre_key_to_vec m) ≡ some m
unfolding toy_pre_key_to_vec toy_pre_key take_one
toy_pre_key_lem m = rw (take_bytes-put_bytes m.identity_key _) (
    rw (take_bytes-put_bytes m.base_key _) (
      rw (take_bytes-put_bytes m.session_message.ciphertext _) (
        rw (take_bytes-put_bytes m.session_message.nonce _)
          (rw (take_bytes-put_bytes m.session_message.ratchet_key _) refl))))

pub toy_pre_key_read :
    (m : PreKeyBundleMessage) → toy_pre_key_from_slice (toy_pre_key_to_vec m) ≡ ok m
unfolding toy_pre_key_from_slice or_unread
toy_pre_key_read m = ap or_unread (toy_pre_key_lem m)

pub toy_hex : Bytes → String
toy_hex bytes = put (length bytes) (put_many bytes "")

toy_unhex_within : ℕ × String → Option (List ℕ × String)
toy_unhex_within (n, rest) = take_many n rest

pub toy_unhex : String → Option Bytes
unfolding toy_unhex_within
toy_unhex text = do counted ← take_number text; (bytes, rest) ← toy_unhex_within counted; some bytes

pub toy_unhex-toy_hex : (bytes : Bytes) → toy_unhex (toy_hex bytes) ≡ some bytes
unfolding toy_unhex toy_hex toy_unhex_within
toy_unhex-toy_hex bytes =
    rw (take_number-put (length bytes) (put_many bytes "")) (rw (take_many-put_many bytes "") refl)

abbrev or_error : Option Bytes → Result String Bytes
or_error none = err "no base64"
or_error (some bytes) = ok bytes

pub toy_base64 : Base64
toy_base64 = record { encode = toy_hex; decode = λ text. or_error (toy_unhex text) }

pub toy_base64-Decodes : Decodes toy_base64
unfolding toy_base64
toy_base64-Decodes = record { decode-encode = λ bytes. ap or_error (toy_unhex-toy_hex bytes) }
