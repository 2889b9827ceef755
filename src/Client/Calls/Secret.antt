-- ===== src/Client/Calls/Secret.antt =====
-- The secret of a call through each operation on it.
use tintin.Prelude.{
  ℕ, ◌≡◌, refl, sym, ap, String, Option, none, some, Result, ok, err, continue, ◌==◌, text_eq,
  Bool-cases, Option-cases, ◌⊎◌, inl, inr, arith, suc,
}
use mathlib.Core.Path.{subst}
use tintin.Core.Crypto.{Bytes, Crypto}
use tintin.Core.Keys.{generate_key_pair, agree}
use tintin.Client.Wire.{Payload}
use tintin.Client.Files.{is_text}
use tintin.Client.State.{ActiveCall, connected, Outside, Device, ClientError, modify}
use tintin.Client.Sending.{send_message}
use tintin.Client.Sending.Frame.{send_message-Keeps}
use tintin.Client.Calls.{
  is_waiting, connect_with, accepted, answered, key_of, with_call, call_payload, end_payload,
  new_call, signal, place_call, start_call, answer_call, accept_call, end_call, offered,
  process_signal, process_call_signal,
}

-- There is no secret yet; or the call is connected, and the secret is agreed between our key of the
-- call and the key of the peer that the call holds.
pub record IsKeyed (c : Crypto) (call : ActiveCall) : Type 0 where
  pub secret_is :
      (call.shared_media_secret ≡ none)
      ⊎ ((peer_pk : Bytes) × (call.state ≡ connected)
          × (call.peer_media_key ≡ some peer_pk)
          × (call.shared_media_secret ≡ some (c.diffie_hellman call.media_key_pair.secret peer_pk)))
  pub pair_is : call.media_key_pair.public ≡ c.public_of call.media_key_pair.secret

abbrev pub AllKeyed : Crypto → Option ActiveCall → Type 0
AllKeyed c none = Unit {0}
AllKeyed c (some call) = IsKeyed c call

module _ {R : Type 0} (o : Outside R) where
  connect_with-IsKeyed :
      (peer_pk : Bytes) (call : ActiveCall)
      → IsKeyed o.crypto call
      → IsKeyed o.crypto (connect_with o.crypto peer_pk call)
  unfolding connect_with agree
  connect_with-IsKeyed peer_pk call h = record {
    secret_is = inr (peer_pk, refl, refl, refl);
    pair_is = h.pair_is;
  }

  accepted-AllKeyed :
      (key : Option Bytes) (call : Option ActiveCall)
      → AllKeyed o.crypto call
      → AllKeyed o.crypto (accepted o.crypto key call)
  unfolding accepted
  accepted-AllKeyed key none h = tt
  accepted-AllKeyed none (some call) h = h
  accepted-AllKeyed (some peer_pk) (some call) h = elim (Bool-cases (is_waiting call.state)) [
    | inl waiting ↦ rw waiting (connect_with-IsKeyed peer_pk call h)
    | inr not_waiting ↦ rw not_waiting h
  ]

  answered-IsKeyed :
      (secret : Bytes) (call : ActiveCall)
      → IsKeyed o.crypto call
      → IsKeyed o.crypto (answered o.crypto (generate_key_pair o.crypto secret) call)
  unfolding answered generate_key_pair agree
  answered-IsKeyed secret call h = elim (Option-cases call.peer_media_key) [
    | inl absent ↦
        rw (absent, answered)
          (record {
            secret_is = elim h.secret_is [
              | inl none_yet ↦ inl none_yet
              | inr (peer_pk, connected', there, agreed) ↦ absurd (ground (arith, there, absent))
            ];
            pair_is = refl;
          })
    | inr (peer_pk, there) ↦
        rw (there, answered)
          (record { secret_is = inr (peer_pk, refl, there, refl); pair_is = refl })
  ]

  -- Sending leaves the call alone.
  pub call_kept :
      (recipient plaintext : String) (d : Device R)
      → (send_message o recipient plaintext d).1.me.active_call ≡ d.me.active_call
  call_kept recipient plaintext d =
      ap (λ me. me.active_call) (send_message-Keeps o recipient plaintext d)

  pub signal-active_call :
      (kind : String) (call : ActiveCall) (d : Device R)
      → (signal o kind call d).1.me.active_call ≡ some call
  unfolding signal
  signal-active_call kind call d =
      call_kept call.peer
        (o.codec.payloads.to_string (call_payload o kind call.call_id call.media_key_pair.public))
        (record d { me = with_call (some call) d.me })

  pub place_call-active_call :
      (peer : String) (d : Device R)
      → (place_call o peer d).1.me.active_call
        ≡ some (new_call o d.me.user_id peer (o.millis d.looks) (o.draw (suc d.looks)))
  unfolding place_call
  place_call-active_call peer d =
      signal-active_call "call_offer"
        (new_call o d.me.user_id peer (o.millis d.looks) (o.draw (suc d.looks)))
        (record d { looks = suc (suc d.looks) })

  pub answer_call-active_call :
      (call : ActiveCall) (d : Device R)
      → (answer_call o call d).1.me.active_call
        ≡ some (answered o.crypto (generate_key_pair o.crypto (o.draw d.looks)) call)
  unfolding answer_call
  answer_call-active_call call d =
      signal-active_call "call_accept"
        (answered o.crypto (generate_key_pair o.crypto (o.draw d.looks)) call)
        (record d { looks = suc d.looks })

  new_call-IsKeyed :
      (user_id peer : String) (millis : ℕ) (secret : Bytes)
      → IsKeyed o.crypto (new_call o user_id peer millis secret)
  unfolding new_call generate_key_pair
  new_call-IsKeyed user_id peer millis secret = record { secret_is = inl refl; pair_is = refl }

  pub start_call-AllKeyed :
      (peer : String) (d : Device R)
      → AllKeyed o.crypto d.me.active_call
      → AllKeyed o.crypto (start_call o peer d).1.me.active_call
  unfolding start_call
  start_call-AllKeyed peer d h = elim (Option-cases d.me.active_call) [
    | inl absent ↦
        rw (absent, start_call)
          (rw (place_call-active_call peer d)
            (new_call-IsKeyed d.me.user_id peer (o.millis d.looks) (o.draw (suc d.looks))))
    | inr (call, there) ↦ rw (there, start_call) h
  ]

  pub accept_call-AllKeyed :
      (call_id : String) (d : Device R)
      → AllKeyed o.crypto d.me.active_call
      → AllKeyed o.crypto (accept_call o call_id d).1.me.active_call
  unfolding accept_call
  accept_call-AllKeyed call_id d h = elim (Option-cases d.me.active_call) [
    | inl absent ↦ rw (absent, accept_call) h
    | inr (call, there) ↦ elim (Bool-cases (call.call_id == call_id)) [
      | inl same ↦
          rw (there, accept_call)
            (rw same (
              rw (answer_call-active_call call d)
                (answered-IsKeyed (o.draw d.looks) call (rw there at h))))
      | inr other ↦ rw (there, accept_call) (rw other h)
    ]
  ]

  ended :
      (x : Result ClientError (Unit {0}) × Device R)
      → AllKeyed o.crypto x.1.me.active_call
      → AllKeyed o.crypto (continue x.0 (λ _. modify (with_call none)) x.1).1.me.active_call
  ended (ok a, d) h = tt
  ended (err e, d) h = h

  pub end_call-AllKeyed :
      (reason : String) (d : Device R)
      → AllKeyed o.crypto d.me.active_call
      → AllKeyed o.crypto (end_call o reason d).1.me.active_call
  unfolding end_call
  end_call-AllKeyed reason d h = elim (Option-cases d.me.active_call) [
    | inl absent ↦ rw (absent, end_call) h
    | inr (call, there) ↦
        rw (there, end_call)
          (ended
            (send_message o call.peer
              (o.codec.payloads.to_string (end_payload o call.call_id reason)) d)
            (subst (AllKeyed o.crypto)
              (sym (
                call_kept call.peer (o.codec.payloads.to_string (end_payload o call.call_id reason))
                  d))
              h))
  ]

  offered-AllKeyed :
      (sender : String) (payload : Payload) (d : Device R)
      → AllKeyed o.crypto (offered o sender payload d).1.me.active_call
  unfolding offered generate_key_pair
  offered-AllKeyed sender payload d = record { secret_is = inl refl; pair_is = refl }

  process_signal-AllKeyed :
      (sender : String) (payload : Payload) (d : Device R)
      → AllKeyed o.crypto d.me.active_call
      → AllKeyed o.crypto (process_signal o sender payload d).1.me.active_call
  unfolding process_signal
  process_signal-AllKeyed sender payload d h =
      elim (Bool-cases (is_text "call_offer" payload.tintin_type)) [
        | inl offer ↦ rw offer (offered-AllKeyed sender payload d)
        | inr not_offer ↦ elim (Bool-cases (is_text "call_accept" payload.tintin_type)) [
          | inl answer ↦ rw not_offer (
              rw answer
                (accepted-AllKeyed (key_of o.codec payload.media_key_pub) d.me.active_call h))
          | inr not_accept ↦ elim (Bool-cases (is_text "call_end" payload.tintin_type)) [
            | inl end ↦ rw not_offer (rw not_accept (rw end tt))
            | inr not_end ↦ rw not_offer (rw not_accept (rw not_end h))
          ]
        ]
      ]

  pub process_call_signal-AllKeyed :
      (sender : String) (plaintext : Bytes) (d : Device R)
      → AllKeyed o.crypto d.me.active_call
      → AllKeyed o.crypto (process_call_signal o sender plaintext d).1.me.active_call
  unfolding process_call_signal
  process_call_signal-AllKeyed sender plaintext d h =
      elim (Option-cases (o.codec.payloads.from_slice plaintext)) [
        | inl absent ↦ rw (absent, process_call_signal) h
        | inr (payload, there) ↦
            rw (there, process_call_signal) (process_signal-AllKeyed sender payload d h)
      ]
