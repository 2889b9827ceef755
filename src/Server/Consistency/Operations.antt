-- ===== src/Server/Consistency/Operations.antt =====
-- The operations of store.rs on users and messages, against the invariant.
use tintin.Prelude.{ℕ, suc, ◌+◌, refl, String, List, [], ◌∷◌, text_eq, number_eq}
use tintin.Prelude.Rows.{delete}
use tintin.Prelude.Rows.Laws.{Distinct-delete, Distinct-append, Distinct-update, exists-delete_self}
use tintin.Prelude.Rows.Numbered.{IsNumbered-append, IsNumbered-delete}
use tintin.Core.Crypto.{Bytes}
use tintin.Core.Message.{Envelope, EnvelopeJson}
use tintin.Server.Db.{Tables, UserRow, MessageRow}
use tintin.Server.Db.Keep.{
  Preserves, Preserves-execute, Preserves-bind, Preserves-query, Preserves-pure, Preserves-when,
}
use tintin.Server.Users.{register_user, set_presence, is_user}
use tintin.Server.Messages.{
  queue_message, queue_receipts, fetch_messages, with_message, is_to, is_receipted, decode_all,
}
use tintin.Server.Consistency.{IsConsistent}

pub register_user-IsConsistent :
    (u : String) (key : Bytes) (spk : String) → Preserves IsConsistent (register_user u key spk)
unfolding register_user
register_user-IsConsistent u key spk = Preserves-execute _ λ t h. assumption (
    Distinct-append (λ (a b : UserRow). is_user b.user_id a) (delete (is_user u) t.users)
      (record { user_id = u; identity_key = key; signed_pre_key = spk; presence = "offline" })
      (Distinct-delete _ (is_user u) t.users h.users) (exists-delete_self (is_user u) t.users))

pub set_presence-IsConsistent :
    (u presence : String) → Preserves IsConsistent (set_presence u presence)
unfolding set_presence
set_presence-IsConsistent u presence = Preserves-execute _ λ t h. assumption (
    Distinct-update (λ (a b : UserRow). is_user b.user_id a) (is_user u)
      (λ (r : UserRow). record r { presence = presence }) t.users (λ x y. refl) (λ x y. refl)
      h.users)

with_message-IsConsistent :
    (s r text : String) (t : Tables) → IsConsistent t → IsConsistent (with_message s r text t)
with_message-IsConsistent s r text t h = assumption (
    IsNumbered-append (λ (m : MessageRow). m.id) t.message_seq t.messages
      (record { id = t.message_seq + 1; sender_id = s; recipient_id = r; envelope = text }) refl
      h.messages)

module _ (j : EnvelopeJson) where
  pub queue_message-IsConsistent : (e : Envelope) → Preserves IsConsistent (queue_message j e)
  unfolding queue_message
  queue_message-IsConsistent e = Preserves-execute _ (with_message-IsConsistent _ _ _)

  queue_receipts-IsConsistent :
      (clock : ℕ → ℕ) (u : String) (msgs : List Envelope)
      → Preserves IsConsistent (queue_receipts j clock u msgs)
  unfolding queue_receipts
  queue_receipts-IsConsistent clock u [] = Preserves-pure tt
  queue_receipts-IsConsistent clock u (msg ∷ rest) =
      Preserves-bind _ _
        (Preserves-when (is_receipted msg) _
          (Preserves-execute _ (with_message-IsConsistent _ _ _)))
        (λ _. queue_receipts-IsConsistent (λ i. clock (suc i)) u rest)

  pub fetch_messages-IsConsistent :
      (clock : ℕ → ℕ) (u : String) → Preserves IsConsistent (fetch_messages j clock u)
  unfolding fetch_messages
  fetch_messages-IsConsistent clock u = Preserves-bind _ _ (Preserves-query _) λ rows.
      Preserves-bind _ _
        (Preserves-execute _ λ t h. assumption (
          IsNumbered-delete (λ (m : MessageRow). m.id) t.message_seq (is_to u) t.messages
            h.messages))
        λ _.
          Preserves-bind _ _ (queue_receipts-IsConsistent clock u (decode_all j rows))
            λ _. Preserves-pure _
