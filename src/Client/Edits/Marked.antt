-- ===== src/Client/Edits/Marked.antt =====
-- What an edit changes in the client.
use tintin.Prelude.{
  ℕ, zero, suc, some, ◌∙◌, ◌≡◌, refl, sym, ap, Bool, true, false, String, List, [], ◌∷◌, ◌++◌,
  Result, ok, err, continue, pure, ◌==◌, text_eq, Bool-cases, Option-cases, inl, inr, ◌⊎◌, arith,
  get_elem?, length,
}
use mathlib.Core.Path.{subst}
use tintin.Prelude.Rows.{exists}
use tintin.Prelude.Texts.{split, starts_with}
use tintin.Core.Crypto.{Bytes}
use tintin.Core.Message.{Envelope, normal}
use tintin.Core.Session.{get}
use tintin.Client.State.{
  TinTinClient, SentMessage, MessageRecord, ClientError, message_not_found, send,
  group_members as members_request, send_line, Outside, Device,
}
use tintin.Client.Sending.{request_ok, encrypt_for, envelope_to}
use tintin.Client.Sending.Frame.{
  Keeps, then-Keeps, messages_of, recv_line-Keeps, send_line-Keeps, encrypt_for-Keeps,
  envelope_to-Keeps, request_ok-Keeps,
}
use tintin.Client.Groups.{group_members, names}
use tintin.Client.Edits.{
  drop_answer, tell, told, posted, tell_all, tell_other, announce, apply_edit, edit_payload,
  last_part, is_outgoing, mark_here, mark_edited, set_text, edit_message,
}

-- `after` is `log` with the last outgoing entry marked as edited, if there is one.
pub data MarksLast : List MessageRecord → List MessageRecord → Type 0 where
  nothing : {log : List MessageRecord} → exists is_outgoing log ≡ false → MarksLast log log
  last :
      {log after : List MessageRecord} (front rest : List MessageRecord) (r : MessageRecord)
      → log ≡ front ++ r ∷ rest
      → is_outgoing r ≡ true
      → exists is_outgoing rest ≡ false
      → after ≡ front ++ record r { edited = true } ∷ rest
      → MarksLast log after

-- what the flag of `mark_edited` says
Flagged : List MessageRecord → Bool × List MessageRecord → Type 0
Flagged log (true, after) = MarksLast log after × (exists is_outgoing log ≡ true)
Flagged log (false, after) = (after ≡ log) × (exists is_outgoing log ≡ false)

further :
    {log after : List MessageRecord} (r : MessageRecord)
    → MarksLast log after
    → exists is_outgoing log ≡ true
    → MarksLast (r ∷ log) (r ∷ after)
further r (nothing absent) there = absurd (ground arith)
further r (last front rest x split out none_later made) there =
    last (r ∷ front) rest x (ap (λ (l : List MessageRecord). r ∷ l) split) out none_later
      (ap (λ (l : List MessageRecord). r ∷ l) made)

mark_here-Flagged :
    (r : MessageRecord) (log : List MessageRecord) (x : Bool × List MessageRecord)
    → Flagged log x
    → Flagged (r ∷ log) (mark_here r x)
unfolding Flagged exists
mark_here-Flagged r log (true, after) (marked, there) = (further r marked there, ground arith)
mark_here-Flagged r log (false, after) (same, absent) = elim (Bool-cases (is_outgoing r)) [
  | inl out ↦ rw out (
    last [] log r refl out absent
        (ap (λ (l : List MessageRecord). record r { edited = true } ∷ l) same),
    ground arith,
  )
  | inr not_out ↦ rw not_out (ap (λ (l : List MessageRecord). r ∷ l) same, ground arith)
]

mark_edited-Flagged : (log : List MessageRecord) → Flagged log (mark_edited log)
unfolding mark_edited Flagged exists
mark_edited-Flagged [] = (refl, refl)
mark_edited-Flagged (r ∷ log) = mark_here-Flagged r log (mark_edited log) (mark_edited-Flagged log)

Flagged-MarksLast :
    (log : List MessageRecord) (x : Bool × List MessageRecord) → Flagged log x → MarksLast log x.1
unfolding Flagged
Flagged-MarksLast log (true, after) h = h.0
Flagged-MarksLast log (false, after) h = subst (MarksLast log) (sym h.0) (nothing h.1)

-- `after` is `before` with the message at the index changed: it has the new text and the flag.
pub data ChangesText (index : ℕ) (new_text : String) (before after : List SentMessage)
    : Type 0 where
  changed :
      (front rest : List SentMessage) (m : SentMessage)
      → before ≡ front ++ m ∷ rest
      → length front ≡ index
      → after ≡ front ++ record m { text = new_text; edited = true } ∷ rest
      → ChangesText index new_text before after

changed_further :
    (index : ℕ) (new_text : String) (x : SentMessage) {before after : List SentMessage}
    → ChangesText index new_text before after
    → ChangesText (suc index) new_text (x ∷ before) (x ∷ after)
changed_further index new_text x (changed front rest m split at made) =
    changed (x ∷ front) rest m (ap (λ (l : List SentMessage). x ∷ l) split) (ap suc at)
      (ap (λ (l : List SentMessage). x ∷ l) made)

set_text-ChangesText :
    (index : ℕ) (new_text : String) (ms : List SentMessage) (m : SentMessage)
    → get_elem? ms index ≡ some m
    → ChangesText index new_text ms (set_text index new_text ms)
unfolding set_text
set_text-ChangesText index new_text [] m there = cc
set_text-ChangesText zero new_text (x ∷ ms) m there = changed [] ms x refl refl refl
set_text-ChangesText (suc index) new_text (x ∷ ms) m there =
    changed_further index new_text x (set_text-ChangesText index new_text ms m there)

module _ {R : Type 0} (o : Outside R) where
  drop_answer-Keeps : Keeps messages_of (drop_answer o)
  drop_answer-Keeps d = recv_line-Keeps o messages_of d

  posted-Keeps : (envelope : Envelope) → Keeps messages_of (posted o envelope)
  posted-Keeps envelope =
      then-Keeps messages_of (send_line o (send envelope)) (λ _. drop_answer o)
        (send_line-Keeps o messages_of (send envelope)) (λ _. drop_answer-Keeps)

  tell-Keeps :
      (payload_bytes : Bytes) (peer : String) → Keeps messages_of (tell o payload_bytes peer)
  unfolding tell
  tell-Keeps payload_bytes peer d = elim (Option-cases (get d.me.sessions peer 1)) [
    | inl absent ↦ rw (absent, tell) refl
    | inr (session, there) ↦
        rw (there, tell)
          (then-Keeps messages_of (encrypt_for o peer false payload_bytes) (told o peer)
            (encrypt_for-Keeps o messages_of (λ me. refl) peer false payload_bytes)
            (λ content.
              then-Keeps messages_of (envelope_to o peer content) (posted o)
                (envelope_to-Keeps o messages_of (λ me. refl) peer content) posted-Keeps)
            d)
  ]

  told_or_own :
      (payload_bytes : Bytes) (member : String)
      → Keeps messages_of (tell_other o payload_bytes member)
  told_or_own payload_bytes member d = elim (Bool-cases (member == d.me.user_id)) [
    | inl own ↦ rw own refl
    | inr other ↦ rw other (tell-Keeps payload_bytes member d)
  ]

  tell_all-Keeps :
      (payload_bytes : Bytes) (members : List String)
      → Keeps messages_of (tell_all o payload_bytes members)
  unfolding tell_all
  tell_all-Keeps payload_bytes [] = λ d. refl
  tell_all-Keeps payload_bytes (member ∷ rest) =
      then-Keeps messages_of (tell_other o payload_bytes member)
        (λ _. tell_all o payload_bytes rest) (told_or_own payload_bytes member)
        (λ _. tell_all-Keeps payload_bytes rest)

  group_members-Keeps : (id : String) → Keeps messages_of (group_members o id)
  unfolding group_members
  group_members-Keeps id =
      then-Keeps messages_of (request_ok o "Failed to get members" (members_request id))
        (λ resp. pure (names resp.members))
        (request_ok-Keeps o messages_of "Failed to get members" (members_request id))
        (λ resp d. refl)

  announce-Keeps :
      (msg : SentMessage) (new_text : String) → Keeps messages_of (announce o msg new_text)
  unfolding announce
  announce-Keeps msg new_text d = elim (Bool-cases (msg.recipient == d.me.user_id)) [
    | inl own ↦ rw own (
        then-Keeps messages_of (envelope_to o d.me.user_id (o.codec.as_bytes new_text, normal))
          (posted o)
          (envelope_to-Keeps o messages_of (λ me. refl) d.me.user_id
            (o.codec.as_bytes new_text, normal))
          posted-Keeps d)
    | inr other ↦ elim (Bool-cases (starts_with "[" msg.recipient)) [
      | inl group ↦ rw other (
          rw group (
            then-Keeps messages_of (group_members o (last_part (split " " msg.recipient)))
              (tell_all o (o.codec.payloads.to_vec (edit_payload o msg.timestamp new_text)))
              (group_members-Keeps (last_part (split " " msg.recipient)))
              (tell_all-Keeps (o.codec.payloads.to_vec (edit_payload o msg.timestamp new_text))) d))
      | inr peer ↦ rw other (
          rw peer (
            tell-Keeps (o.codec.payloads.to_vec (edit_payload o msg.timestamp new_text))
              msg.recipient d))
    ]
  ]

  -- Of the sent messages, the one at the index has the new text, and of the chat log the last outgoing
  -- entry is marked.
  abbrev pub IsEdited : ℕ → String → Device R → Result ClientError (Unit {0}) × Device R → Type 0
  IsEdited index new_text d (r, after) =
      (r ≡ ok tt)
      × ChangesText index new_text d.me.sent_messages after.me.sent_messages
      × MarksLast d.me.chat_log after.me.chat_log

  -- The method failed, and neither list has changed.
  abbrev pub IsUnedited : Device R → Result ClientError (Unit {0}) × Device R → Type 0
  IsUnedited d (r, after) =
      (e : ClientError) × (r ≡ err e)
      × (after.me.sent_messages ≡ d.me.sent_messages)
      × (after.me.chat_log ≡ d.me.chat_log)

  edit_outcome :
      (index : ℕ) (new_text : String) (d : Device R) (msg : SentMessage)
      (x : Result ClientError (Unit {0}) × Device R)
      → get_elem? d.me.sent_messages index ≡ some msg
      → messages_of x.1.me ≡ messages_of d.me
      → IsEdited index new_text d (continue x.0 (λ _. apply_edit o index new_text) x.1)
        ⊎ IsUnedited d (continue x.0 (λ _. apply_edit o index new_text) x.1)
  edit_outcome index new_text d msg (err e, after) there kept =
      inr (e, refl, ap (λ me. me.sent_messages) kept, ap (λ me. me.chat_log) kept)
  edit_outcome index new_text d msg (ok a, after) there kept = inl (
    refl,
    subst
        (λ (me : TinTinClient).
          ChangesText index new_text me.sent_messages
            (set_text index new_text after.me.sent_messages))
        kept
        (set_text-ChangesText index new_text after.me.sent_messages msg
          (ap (λ me. get_elem? me.sent_messages index) kept ∙ there)),
    subst (λ (me : TinTinClient). MarksLast me.chat_log (mark_edited after.me.chat_log).1) kept
        (Flagged-MarksLast after.me.chat_log (mark_edited after.me.chat_log)
          (mark_edited-Flagged after.me.chat_log)),
  )

  -- Editing a message either fails, and the sent messages and the chat log are as they were; or there
  -- is a sent message at the index, it alone is changed, to the new text and marked as edited, and of
  -- the chat log the last outgoing entry is marked, whichever message was edited.
  pub edit_message-IsEdited :
      (index : ℕ) (new_text : String) (d : Device R)
      → IsEdited index new_text d (edit_message o index new_text d)
        ⊎ IsUnedited d (edit_message o index new_text d)
  unfolding edit_message
  edit_message-IsEdited index new_text d =
      elim (Option-cases (get_elem? d.me.sent_messages index)) [
        | inl absent ↦
            rw (absent, edit_message)
              (inr (message_not_found index (length d.me.sent_messages), refl, refl, refl))
        | inr (msg, there) ↦
            rw (there, edit_message)
              (edit_outcome index new_text d msg (announce o msg new_text d) there
                (announce-Keeps msg new_text d))
      ]
