-- ===== src/Client/Calls/Exchange.antt =====
-- A call that one client starts and another accepts.
use tintin.Prelude.{ℕ, suc, ◌≡◌, refl, ap, String, none, some, text_eq, number_eq, beq_refl}
use tintin.Core.Crypto.{Bytes, Sound}
use tintin.Core.Keys.{generate_key_pair, agree}
use tintin.Client.State.{ActiveCall, connected, Outside, Device}
use tintin.Client.Codecs.{Faithful}
use tintin.Client.Sending.{send_message}
use tintin.Client.Calls.{
  connect_with, answered, call_payload, new_call, start_call, accept_call, place_call, signal,
  answer_call, with_call, process_call_signal,
}
use tintin.Client.Calls.Secret.{place_call-active_call}
use tintin.Client.Calls.Handshake.{
  Sized, elsewhere, heard_as, signal_text, ringing_call, hears_offer, hears_accept,
}

module _ {R : Type 0} (o : Outside R) where
  -- the call of whoever has answered an offer with a secret of their own
  abbrev answered_call : String → ActiveCall → Bytes → Bytes → ActiveCall
  answered_call caller offer placeholder secret =
      answered o.crypto (generate_key_pair o.crypto secret)
        (ringing_call o caller offer placeholder)

  pub starts :
      (callee : String) (d : Device R)
      → d.me.active_call ≡ none
      → (start_call o callee d).1.me.active_call
        ≡ some (new_call o d.me.user_id callee (o.millis d.looks) (o.draw (suc d.looks)))
  unfolding start_call
  starts callee d idle = rw (idle, start_call) (place_call-active_call o callee d)

  -- `start_call` is the sending of its signal, once the call is there.
  start_call_sends :
      (callee : String) (d : Device R)
      → d.me.active_call ≡ none
      → let offer = new_call o d.me.user_id callee (o.millis d.looks) (o.draw (suc d.looks)) in
        start_call o callee d
        ≡ send_message o callee
            (signal_text o "call_offer" offer)
            (record d { looks = suc (suc d.looks); me = with_call (some offer) d.me })
  unfolding start_call place_call signal new_call
  start_call_sends callee d idle = rw (idle, start_call) refl

  -- So is `accept_call`.
  accept_call_sends :
      (caller : String) (offer : ActiveCall) (placeholder : Bytes) (d : Device R)
      → d.me.active_call ≡ some (ringing_call o caller offer placeholder)
      → let answer = answered_call caller offer placeholder (o.draw d.looks) in
        accept_call o offer.call_id d
        ≡ send_message o caller
            (signal_text o "call_accept" answer)
            (record d { looks = suc d.looks; me = with_call (some answer) d.me })
  unfolding accept_call answer_call signal answered
  accept_call_sends caller offer placeholder d rings =
      rw (rings, accept_call) (rw (beq_refl offer.call_id) refl)

module _ {R : Type 0} (o : Outside R) (draw : ℕ → Bytes) (millis : ℕ → ℕ) where
  -- One client starts a call: it sends a text to the other, as a message. The other, with the same
  -- libraries and its own generator and clock, whatever its state, hears that text as a signal from
  -- the caller, and its user accepts: it sends a text back to the caller, who hears that one. Then
  -- both calls are connected, each with the other as its peer, under one call id and with one secret.
  -- It is enough that the caller had no call, that key agreement is symmetric, that public keys have
  -- 32 bytes and that hex and JSON are read back; what the relay answers to either message does not
  -- matter. How the bytes of a text get from one client to the other is not part of this.
  pub start_call-accept_call :
      (caller callee : String) (a b : Device R)
      → Faithful o.codec
      → Sized o.crypto
      → Sound o.crypto
      → a.me.active_call ≡ none
      → (offer_text answer_text : String) × (placed taken : Device R) × (offer answer
          final : ActiveCall)
        × (start_call o callee a ≡ send_message o callee offer_text placed)
        × (placed.me ≡ with_call (some offer) a.me)
        × ((start_call o callee a).1.me.active_call ≡ some offer)
        × (accept_call
              (elsewhere o draw millis)
              offer.call_id
              (process_call_signal
                (elsewhere o draw millis)
                caller
                (o.codec.as_bytes offer_text)
                b).1
            ≡ send_message (elsewhere o draw millis) caller answer_text taken)
        × (taken.me.active_call ≡ some answer)
        × ((process_call_signal o callee
              (o.codec.as_bytes answer_text)
              (start_call o callee a).1).1.me.active_call
            ≡ some final)
        × (answer.state ≡ connected)
        × (final.state ≡ connected)
        × (answer.peer ≡ caller)
        × (final.peer ≡ callee)
        × (answer.call_id ≡ offer.call_id)
        × (final.call_id ≡ offer.call_id)
        × (secret : Bytes) × (answer.shared_media_secret ≡ some secret)
        × (final.shared_media_secret ≡ some secret)
  unfolding new_call answered connect_with agree generate_key_pair call_payload
  start_call-accept_call caller callee a b faithful sized sound idle =
      let offer = new_call o a.me.user_id callee (o.millis a.looks) (o.draw (suc a.looks)) in
      let there = elsewhere o draw millis in
      let b' = (process_call_signal there caller (heard_as o "call_offer" offer) b).1 in
      let answer = answered_call there caller offer (draw b.looks) (draw b'.looks) in
      let begun = starts o callee a idle in
      let rings = hears_offer there caller offer (o.draw (suc a.looks)) b faithful sized refl in
      (
        signal_text o "call_offer" offer,
        signal_text there "call_accept" answer,
        record a { looks = suc (suc a.looks); me = with_call (some offer) a.me },
        record b' { looks = suc b'.looks; me = with_call (some answer) b'.me },
        offer,
        answer,
        connect_with o.crypto answer.media_key_pair.public offer,
        start_call_sends o callee a idle,
        refl,
        begun,
        accept_call_sends there caller offer (draw b.looks) b' rings,
        refl,
        hears_accept o callee answer offer (draw b'.looks) (start_call o callee a).1 faithful sized
            refl begun refl,
        refl,
        refl,
        refl,
        refl,
        refl,
        refl,
        o.crypto.diffie_hellman (draw b'.looks) (o.crypto.public_of (o.draw (suc a.looks))),
        refl,
        ap (λ (k : Bytes). some k) (sound.agreement (o.draw (suc a.looks)) (draw b'.looks)),
      )
