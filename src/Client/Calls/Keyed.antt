-- ===== src/Client/Calls/Keyed.antt =====
-- The secret of a call, whatever the client does and hears.
use tintin.Prelude.{◌≡◌, sym, String, none, some, text_eq}
use mathlib.Core.Path.{subst}
use tintin.Core.Crypto.{Bytes}
use tintin.Client.State.{ActiveCall, Outside, Device}
use tintin.Client.Sending.{send_message}
use tintin.Client.Calls.{start_call, accept_call, end_call, process_call_signal}
use tintin.Client.Calls.Secret.{
  IsKeyed, AllKeyed, start_call-AllKeyed, accept_call-AllKeyed, end_call-AllKeyed,
  process_call_signal-AllKeyed, call_kept,
}

-- What a user does with calls, and what the client hears.
pub data Action : Type 0 where
  start accept hang_up : String → Action
  say : String → String → Action
  hear : String → Bytes → Action

module _ {R : Type 0} (o : Outside R) where
  unfoldable pub perform : Action → Device R → Device R
  unfolding start_call accept_call end_call send_message process_call_signal
  perform (start peer) d = (start_call o peer d).1
  perform (accept call_id) d = (accept_call o call_id d).1
  perform (hang_up reason) d = (end_call o reason d).1
  perform (say recipient plaintext) d = (send_message o recipient plaintext d).1
  perform (hear sender plaintext) d = (process_call_signal o sender plaintext d).1

  perform-AllKeyed :
      (a : Action) (d : Device R)
      → AllKeyed o.crypto d.me.active_call
      → AllKeyed o.crypto (perform a d).me.active_call
  unfolding perform
  perform-AllKeyed (start peer) d h = start_call-AllKeyed o peer d h
  perform-AllKeyed (accept call_id) d h = accept_call-AllKeyed o call_id d h
  perform-AllKeyed (hang_up reason) d h = end_call-AllKeyed o reason d h
  perform-AllKeyed (say recipient plaintext) d h =
      subst (AllKeyed o.crypto) (sym (call_kept o recipient plaintext d)) h
  perform-AllKeyed (hear sender plaintext) d h = process_call_signal-AllKeyed o sender plaintext d h

  -- What a client can come to, one action after the other.
  pub data Reaches : Device R → Device R → Type 0 where
    here : {d : Device R} → Reaches d d
    act : {d e f : Device R} → Reaches d e → (a : Action) → f ≡ perform a e → Reaches d f

  Reaches-AllKeyed :
      {d e : Device R}
      → Reaches d e
      → AllKeyed o.crypto d.me.active_call
      → AllKeyed o.crypto e.me.active_call
  Reaches-AllKeyed here h = h
  Reaches-AllKeyed (act {e = e} before a same) h =
      subst (λ (f : Device R). AllKeyed o.crypto f.me.active_call) (sym same)
        (perform-AllKeyed a e (Reaches-AllKeyed before h))

  -- Whatever a client without a call does and hears after that, whoever sends it and whether or not
  -- the relay answers: its call has no secret yet, or the call is connected and the secret is agreed
  -- between the client's own key of the call and the peer's key that the call holds.
  pub Reaches-IsKeyed :
      (d e : Device R) (call : ActiveCall)
      → d.me.active_call ≡ none
      → Reaches d e
      → e.me.active_call ≡ some call
      → IsKeyed o.crypto call
  Reaches-IsKeyed d e call idle reached there =
      subst (AllKeyed o.crypto) there
        (Reaches-AllKeyed reached (subst (AllKeyed o.crypto) (sym idle) tt))
