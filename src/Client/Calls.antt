-- ===== src/Client/Calls.antt =====
-- Calls, of tintin-cli/src/main.rs: the signals between two clients, and the media of a call.
pub mod Handshake
pub mod Exchange
pub mod Secret
pub mod Keyed
use tintin.Prelude.{
  ℕ, zero, suc, ◌-◌, Bool, true, false, ◌||◌, String, List, [], ◌∷◌, ◌++◌, Option, none, some,
  Result, ok, err, pure, raise, ◌>>=◌, ◌>>◌, ◌==◌, number_eq, text_eq, if◌then◌else◌, length, take,
}
use tintin.Prelude.Texts.{join, is_empty}
use tintin.Core.Crypto.{Bytes, Crypto, codes}
use tintin.Core.Keys.{KeyPair, generate_key_pair, agree}
use tintin.Core.Cipher.{decrypt}
use tintin.Core.Error.{TinTinError}
use tintin.Client.Wire.{Payload, blank, unwrap_or}
use tintin.Client.Files.{is_text}
use tintin.Client.State.{
  TinTinClient, ActiveCall, CallState, offering, ringing, connected, MediaFile, ClientError,
  already_in_call, different_call, no_incoming_call, no_active_call, Codec, Outside, Device, Run,
  modify, asks, fresh, now,
}
use tintin.Client.Sending.{send_message}

-- `.ok()` on a result of tintin-core
abbrev pub to_option : {A : Type 0} → Result TinTinError A → Option A
to_option (ok a) = some a
to_option (err e) = none

-- `hex::decode(..).ok()` and `try_into()` to 32 bytes
unfoldable pub key_of : Codec → Option String → Option Bytes
key_of codec found = elim (codec.hex_decode (unwrap_or "" found)) [
  | none ↦ none
  | some bytes ↦ if length bytes == 32 then some bytes else none
]

abbrev pub with_call : Option ActiveCall → TinTinClient → TinTinClient
with_call call me = record me { active_call = call }

abbrev pub is_waiting : CallState → Bool
is_waiting offering = true
is_waiting ringing = true
is_waiting connected = false

-- the peer's key, and the secret with it
unfoldable pub connect_with : Crypto → Bytes → ActiveCall → ActiveCall
connect_with c peer_pk call = record call {
  peer_media_key = some peer_pk;
  shared_media_secret = to_option (agree c call.media_key_pair peer_pk);
  state = connected;
}

-- what "call_accept" does to the call there is
unfoldable pub accepted : Crypto → Option Bytes → Option ActiveCall → Option ActiveCall
unfolding connect_with
accepted c key none = none
accepted c none (some call) = some call
accepted c (some peer_pk) (some call) =
    if is_waiting call.state then some (connect_with c peer_pk call) else some call

-- our new key pair, and the secret with the caller's key if it came
unfoldable pub answered : Crypto → KeyPair → ActiveCall → ActiveCall
answered c pair call = elim call.peer_media_key [
  | none ↦ record call { media_key_pair = pair; state = connected }
  | some peer_pk ↦ record call {
    media_key_pair = pair;
    shared_media_secret = to_option (agree c pair peer_pk);
    state = connected;
  }
]

module _ {R : Type 0} (o : Outside R) where
  unfoldable pub call_payload : String → String → Bytes → Payload
  call_payload kind call_id public_key = record blank {
    tintin_type = some kind;
    call_id = some call_id;
    media_key_pub = some (o.codec.hex_encode public_key);
  }

  unfoldable pub end_payload : String → String → Payload
  end_payload call_id reason = record blank {
    tintin_type = some "call_end";
    call_id = some call_id;
    reason = some reason;
  }

  -- The call becomes ours, and its peer hears of it and of our key.
  unfoldable pub signal : String → ActiveCall → Run R (Unit {0})
  unfolding call_payload send_message
  signal kind call =
      modify (with_call (some call))
      >> send_message o call.peer
          (o.codec.payloads.to_string (call_payload kind call.call_id call.media_key_pair.public))

  -- the call that `start_call` makes, at a time and with a secret that is drawn
  unfoldable pub new_call : String → String → ℕ → Bytes → ActiveCall
  unfolding join
  new_call user_id peer millis secret = record {
    peer = peer;
    call_id = join user_id (join "_" (o.codec.decimal millis));
    media_key_pair = generate_key_pair o.crypto secret;
    peer_media_key = none;
    shared_media_secret = none;
    state = offering;
  }

  -- the rest of `start_call`, when no call is there
  unfoldable pub place_call : String → Run R (Unit {0})
  unfolding new_call signal
  place_call peer = do
    millis ← now o
    user_id ← asks (λ me. me.user_id)
    secret ← fresh o
    signal "call_offer" (new_call user_id peer millis secret)

  unfoldable pub start_call : String → Run R (Unit {0})
  unfolding place_call
  start_call peer d = elim d.me.active_call [
    | some call ↦ (err already_in_call, d)
    | none ↦ place_call peer d
  ]

  -- the rest of `accept_call`, with the call that it accepts
  unfoldable pub answer_call : ActiveCall → Run R (Unit {0})
  unfolding answered signal
  answer_call call = do
    secret ← fresh o
    signal "call_accept" (answered o.crypto (generate_key_pair o.crypto secret) call)

  unfoldable pub accept_call : String → Run R (Unit {0})
  unfolding answer_call
  accept_call call_id d = elim d.me.active_call [
    | none ↦ (err no_incoming_call, d)
    | some call ↦ if call.call_id == call_id then answer_call call d else (err different_call, d)
  ]

  unfoldable pub end_call : String → Run R (Unit {0})
  unfolding end_payload send_message
  end_call reason d = elim d.me.active_call [
    | none ↦ (err no_active_call, d)
    | some call ↦
        (do
          send_message o call.peer (o.codec.payloads.to_string (end_payload call.call_id reason))
          modify (with_call none))
          d
  ]

  -- the call that an offer leaves, whatever call there was
  unfoldable pub offered : String → Payload → Run R Bool
  unfolding key_of
  offered sender payload = do
    secret ← fresh o
    modify (
        with_call (
          some (record {
            peer = sender;
            call_id = unwrap_or "?" payload.call_id;
            media_key_pair = generate_key_pair o.crypto secret;
            peer_media_key = key_of o.codec payload.media_key_pub;
            shared_media_secret = none;
            state = ringing;
          })))
    pure true

  unfoldable pub process_signal : String → Payload → Run R Bool
  unfolding offered accepted key_of
  process_signal sender payload =
      if is_text "call_offer" payload.tintin_type
      then offered sender payload
      else if is_text "call_accept" payload.tintin_type
      then modify (λ me.
        with_call (accepted o.crypto (key_of o.codec payload.media_key_pub) me.active_call) me)
        >> pure true
      else if is_text "call_end" payload.tintin_type
      then modify (with_call none) >> pure true
      else pure false

  -- The result says whether it was a call signal.
  unfoldable pub process_call_signal : String → Bytes → Run R Bool
  unfolding process_signal
  process_call_signal sender plaintext = elim (o.codec.payloads.from_slice plaintext) [
    | none ↦ pure false
    | some payload ↦ process_signal sender payload
  ]

  -- the key of a call's media
  unfoldable pub media_key : Bytes → Bytes
  media_key secret = o.crypto.sha256 (secret ++ codes "tintin-call-media-v1")

  -- 12 bytes, filled from the front
  unfoldable pub nonce_of : Bytes → Bytes
  nonce_of bytes = take 12 (bytes ++ 0 ∷ 0 ∷ 0 ∷ 0 ∷ 0 ∷ 0 ∷ 0 ∷ 0 ∷ 0 ∷ 0 ∷ 0 ∷ 0 ∷ [])

  -- the secret of the call with the sender, if there is one
  unfoldable pub secret_with : String → Option ActiveCall → Option Bytes
  secret_with sender none = none
  secret_with sender (some call) = if call.peer == sender then call.shared_media_secret else none

  abbrev save_media : String → ℕ → Result TinTinError Bytes → TinTinClient → TinTinClient
  save_media sender seq (err e) me = me
  save_media sender seq (ok bytes) me = record me {
    media = me.media ++ record { sender = sender; seq = seq; bytes = bytes } ∷ [];
  }

  abbrev open_media :
      String → ℕ → Bytes → Result String Bytes → Option Bytes → TinTinClient → TinTinClient
  open_media sender seq secret (ok ciphertext) (some nonce_bytes) me =
      save_media sender seq (decrypt o.crypto ciphertext (media_key secret) (nonce_of nonce_bytes))
        me
  open_media sender seq secret (ok ciphertext) none me = me
  open_media sender seq secret (err e) _ me = me

  -- a chunk of media, when there is a secret with its sender
  unfoldable pub process_media : String → Bytes → Payload → Run R Bool
  unfolding media_key nonce_of
  process_media sender secret payload =
      let body = unwrap_or "" payload.body in
      let nonce_hex = unwrap_or "" payload.nonce in
      if unwrap_or false payload.end_of_stream
      then pure true
      else if is_empty body || is_empty nonce_hex
      then pure true
      else modify (
          open_media sender (unwrap_or 0 payload.seq) secret (o.codec.base64.decode body)
            (o.codec.hex_decode nonce_hex))
        >> pure true

  abbrev media_from : String → Payload → Option Bytes → Run R Bool
  media_from sender payload none = pure false
  media_from sender payload (some secret) = process_media sender secret payload

  unfoldable pub process_media_chunk : String → Bytes → Run R Bool
  unfolding secret_with process_media
  process_media_chunk sender plaintext d = elim (o.codec.payloads.from_slice plaintext) [
    | none ↦ (ok false, d)
    | some payload ↦
        if is_text "media_chunk" payload.tintin_type
        then media_from sender payload (secret_with sender d.me.active_call) d
        else (ok false, d)
  ]
