-- ===== src/Client/Edits.antt =====
-- `edit_message` of tintin-cli/src/main.rs, and what an edit does to the chat log.
pub mod Marked
use tintin.Prelude.{
  ℕ, zero, suc, Bool, true, false, String, List, [], ◌∷◌, Option, none, some, Result, ok, err, pure,
  ◌>>=◌, ◌>>◌, ◌==◌, text_eq, if◌then◌else◌, length, get_elem?,
}
use tintin.Prelude.Texts.{split, starts_with}
use tintin.Core.Crypto.{Bytes}
use tintin.Core.Message.{Envelope, MessageType, normal}
use tintin.Core.Session.{get}
use tintin.Client.Wire.{Payload, blank}
use tintin.Client.State.{
  TinTinClient, SentMessage, MessageRecord, outgoing, incoming, ClientError, message_not_found,
  send, Outside, Device, Run, modify, send_line, recv_line,
}
use tintin.Client.Sending.{envelope_to, encrypt_for}
use tintin.Client.Groups.{group_members}

-- `sent_messages.get_mut(index)`
unfoldable pub set_text : ℕ → String → List SentMessage → List SentMessage
set_text index new_text [] = []
set_text zero new_text (m ∷ ms) = record m { text = new_text; edited = true } ∷ ms
set_text (suc index) new_text (m ∷ ms) = m ∷ set_text index new_text ms

abbrev pub is_outgoing : MessageRecord → Bool
is_outgoing r = elim r.direction [ outgoing ↦ true | incoming ↦ false ]

-- whether an entry was marked, and the entries
abbrev pub mark_here : MessageRecord → Bool × List MessageRecord → Bool × List MessageRecord
mark_here r (true, rest) = (true, r ∷ rest)
mark_here r (false, rest) =
    if is_outgoing r then (true, record r { edited = true } ∷ rest) else (false, r ∷ rest)

-- `chat_log.iter_mut().rev().find(..)`: the last outgoing entry
unfoldable pub mark_edited : List MessageRecord → Bool × List MessageRecord
mark_edited [] = (false, [])
mark_edited (r ∷ log) = mark_here r (mark_edited log)

-- `split(' ').last()`
unfoldable pub last_part : List String → String
last_part [] = ""
last_part (part ∷ []) = part
last_part (part ∷ next ∷ parts) = last_part (next ∷ parts)

module _ {R : Type 0} (o : Outside R) where
  unfoldable pub edit_payload : ℕ → String → Payload
  edit_payload original_timestamp new_text = record blank {
    tintin_type = some "edit";
    original_timestamp = some original_timestamp;
    new_text = some new_text;
  }

  -- `let _ = self.recv_json().await`
  abbrev pub drop_answer : Run R (Unit {0})
  drop_answer d = (ok tt, (recv_line o d).1)

  abbrev pub posted : Envelope → Run R (Unit {0})
  posted envelope = send_line o (send envelope) >> drop_answer

  -- the encrypted edit
  abbrev pub told : String → Bytes × MessageType → Run R (Unit {0})
  told peer content = envelope_to o peer content >>= posted

  -- the edit to one peer, if there is a session with it
  unfoldable pub tell : Bytes → String → Run R (Unit {0})
  unfolding encrypt_for envelope_to
  tell payload_bytes peer d = elim (get d.me.sessions peer 1) [
    | none ↦ (ok tt, d)
    | some session ↦ (encrypt_for o peer false payload_bytes >>= told peer) d
  ]

  abbrev pub tell_other : Bytes → String → Run R (Unit {0})
  tell_other payload_bytes member d =
      if member == d.me.user_id then (ok tt, d) else tell payload_bytes member d

  -- the loop over the members of a group
  unfoldable pub tell_all : Bytes → List String → Run R (Unit {0})
  unfolding tell
  tell_all payload_bytes [] = pure tt
  tell_all payload_bytes (member ∷ rest) =
      tell_other payload_bytes member >> tell_all payload_bytes rest

  -- what is sent of an edit: to oneself, to a group, or to one peer
  unfoldable pub announce : SentMessage → String → Run R (Unit {0})
  unfolding edit_payload envelope_to tell tell_all group_members last_part split starts_with
  announce msg new_text d =
      let payload_bytes = o.codec.payloads.to_vec (edit_payload msg.timestamp new_text) in
      if msg.recipient == d.me.user_id
      then (envelope_to o d.me.user_id (o.codec.as_bytes new_text, normal) >>= posted) d
      else if starts_with "[" msg.recipient
      then (group_members o (last_part (split " " msg.recipient)) >>= tell_all payload_bytes) d
      else tell payload_bytes msg.recipient d

  -- the change to the sent messages and the chat log
  abbrev pub apply_edit : ℕ → String → Run R (Unit {0})
  apply_edit index new_text = modify (λ me. record me {
    sent_messages = set_text index new_text me.sent_messages;
    chat_log = (mark_edited me.chat_log).1;
  })

  unfoldable pub edit_message : ℕ → String → Run R (Unit {0})
  unfolding announce set_text mark_edited
  edit_message index new_text d = elim (get_elem? d.me.sent_messages index) [
    | none ↦ (err (message_not_found index (length d.me.sent_messages)), d)
    | some msg ↦ (announce msg new_text >> apply_edit index new_text) d
  ]
