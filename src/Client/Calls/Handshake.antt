-- ===== src/Client/Calls/Handshake.antt =====
-- An offer and its answer, between two clients.
use tintin.Prelude.{
  ℕ, ◌≡◌, refl, ◌∙◌, ap, Bool, true, String, none, some, Result, ◌==◌, text_eq, number_eq, arith,
  length,
}
use tintin.Core.Crypto.{Bytes, Crypto}
use tintin.Core.Keys.{generate_key_pair}
use tintin.Client.State.{ActiveCall, ringing, Outside, Device, ClientError}
use tintin.Client.Codecs.{Faithful}
use tintin.Client.Calls.{
  is_waiting, connect_with, accepted, key_of, call_payload, offered, process_signal,
  process_call_signal,
}

-- x25519 public keys have 32 bytes.
pub record Sized (c : Crypto) : Type 0 where
  pub length-public_of : (secret : Bytes) → length (c.public_of secret) ≡ 32

-- Another machine: the same libraries, another generator and clock.
abbrev pub elsewhere : {R : Type 0} → Outside R → (ℕ → Bytes) → (ℕ → ℕ) → Outside R
elsewhere o draw millis = record o { draw = draw; millis = millis }

module _ {R : Type 0} (o : Outside R) where
  -- the text of the signal that tells of a call, and its bytes
  abbrev pub signal_text : String → ActiveCall → String
  signal_text kind call =
      o.codec.payloads.to_string (call_payload o kind call.call_id call.media_key_pair.public)

  abbrev pub heard_as : String → ActiveCall → Bytes
  heard_as kind call = o.codec.as_bytes (signal_text kind call)

  key_of_public :
      (secret : Bytes) (call : ActiveCall)
      → Faithful o.codec
      → Sized o.crypto
      → call.media_key_pair.public ≡ o.crypto.public_of secret
      → key_of o.codec (some (o.codec.hex_encode call.media_key_pair.public))
        ≡ some call.media_key_pair.public
  unfolding key_of
  key_of_public secret call faithful sized is_public =
      let long : length call.media_key_pair.public ≡ 32 =
        ap (λ (k : Bytes). length k) is_public ∙ sized.length-public_of secret in
      let fits : (length call.media_key_pair.public == 32) ≡ true = ground arith in
      rw (faithful.hex_decode-hex_encode call.media_key_pair.public, key_of) (rw fits refl)

  heard :
      (kind sender : String) (call : ActiveCall) (d : Device R)
      → Faithful o.codec
      → process_call_signal o sender (heard_as kind call) d
        ≡ process_signal o sender (call_payload o kind call.call_id call.media_key_pair.public) d
  unfolding process_call_signal
  heard kind sender call d faithful =
      rw
        (
          faithful.payload_read (call_payload o kind call.call_id call.media_key_pair.public),
          process_call_signal,
        )
        refl

  -- the call of whoever hears an offer
  abbrev pub ringing_call : String → ActiveCall → Bytes → ActiveCall
  ringing_call caller call secret = record {
    peer = caller;
    call_id = call.call_id;
    media_key_pair = generate_key_pair o.crypto secret;
    peer_media_key = some call.media_key_pair.public;
    shared_media_secret = none;
    state = ringing;
  }

  offer_signal :
      (caller : String) (call : ActiveCall) (d : Device R)
      → (process_signal o caller
          (call_payload o "call_offer" call.call_id call.media_key_pair.public)
          d).1.me.active_call
        ≡ some (record (ringing_call caller call (o.draw d.looks)) {
          peer_media_key = key_of o.codec (some (o.codec.hex_encode call.media_key_pair.public));
        })
  unfolding process_signal offered call_payload
  offer_signal caller call d = refl

  accept_signal :
      (sender : String) (call : ActiveCall) (d : Device R)
      → (process_signal o sender
          (call_payload o "call_accept" call.call_id call.media_key_pair.public)
          d).1.me.active_call
        ≡ accepted o.crypto
            (key_of o.codec (some (o.codec.hex_encode call.media_key_pair.public)))
            d.me.active_call
  unfolding process_signal call_payload
  accept_signal sender call d = refl

  pub hears_offer :
      (caller : String) (call : ActiveCall) (secret : Bytes) (d : Device R)
      → Faithful o.codec
      → Sized o.crypto
      → call.media_key_pair.public ≡ o.crypto.public_of secret
      → (process_call_signal o caller (heard_as "call_offer" call) d).1.me.active_call
        ≡ some (ringing_call caller call (o.draw d.looks))
  hears_offer caller call secret d faithful sized is_public =
      ap (λ (x : Result ClientError Bool × Device R). x.1.me.active_call)
        (heard "call_offer" caller call d faithful)
      ∙ offer_signal caller call d
      ∙ ap (λ k. some (record (ringing_call caller call (o.draw d.looks)) { peer_media_key = k }))
          (key_of_public secret call faithful sized is_public)

  pub hears_accept :
      (sender : String) (theirs ours : ActiveCall) (secret : Bytes) (d : Device R)
      → Faithful o.codec
      → Sized o.crypto
      → theirs.media_key_pair.public ≡ o.crypto.public_of secret
      → d.me.active_call ≡ some ours
      → is_waiting ours.state ≡ true
      → (process_call_signal o sender (heard_as "call_accept" theirs) d).1.me.active_call
        ≡ some (connect_with o.crypto theirs.media_key_pair.public ours)
  unfolding accepted
  hears_accept sender theirs ours secret d faithful sized is_public there waiting =
      ap (λ (x : Result ClientError Bool × Device R). x.1.me.active_call)
        (heard "call_accept" sender theirs d faithful)
      ∙ accept_signal sender theirs d
      ∙ ap (λ k. accepted o.crypto k d.me.active_call)
          (key_of_public secret theirs faithful sized is_public)
      ∙ ap (λ call. accepted o.crypto (some theirs.media_key_pair.public) call) there
      ∙ rw waiting refl
