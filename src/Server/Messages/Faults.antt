-- ===== src/Server/Messages/Faults.antt =====
-- What the queue keeps, and what it loses, where statements of the database fail.
use tintin.Prelude.{
  ℕ, ◌+◌, ◌≡◌, refl, Bool, true, false, String, List, [], ◌∷◌, Option, none, some, err, >>=-err,
}
use tintin.Prelude.Rows.{select, delete}
use tintin.Prelude.Rows.Laws.{select-delete_self}
use tintin.Prelude.Rows.Order.{order_by, order_by_sorted}
use tintin.Prelude.Rows.Numbered.{
  id_le, IsNumbered-select, IsNumbered-IsSorted, IsNumbered-append, IsNumbered-delete,
}
use tintin.Core.Message.{Envelope, EnvelopeJson}
use tintin.Server.Db.{Tables, MessageRow, Conn, SqlError, execute, when}
use tintin.Server.Messages.{
  is_to, with_message, is_receipted, decode_all, receipt_for, queue_receipts, fetch_messages,
}
use tintin.Server.Messages.Mailbox.{QueueIsNumbered, waiting}

pub with_message-QueueIsNumbered :
    (s r text : String) (t : Tables) → QueueIsNumbered t → QueueIsNumbered (with_message s r text t)
with_message-QueueIsNumbered s r text t h =
    IsNumbered-append (λ (r : MessageRow). r.id) t.message_seq t.messages
      (record { id = t.message_seq + 1; sender_id = s; recipient_id = r; envelope = text }) refl h

pub without-QueueIsNumbered :
    (u : String) (t : Tables)
    → QueueIsNumbered t
    → QueueIsNumbered (record t { messages = delete (is_to u) t.messages })
without-QueueIsNumbered u t h =
    IsNumbered-delete (λ (r : MessageRow). r.id) t.message_seq (is_to u) t.messages h

module _ (j : EnvelopeJson) where
  in_order :
      (u : String) (t : Tables)
      → QueueIsNumbered t
      → order_by (id_le (λ (r : MessageRow). r.id)) (select (is_to u) t.messages)
        ≡ select (is_to u) t.messages
  in_order u t numbered =
      let mine = select (is_to u) t.messages in
      order_by_sorted _ mine (
        IsNumbered-IsSorted _ t.message_seq mine
          (IsNumbered-select _ t.message_seq (is_to u) t.messages numbered))

  -- a connection that runs two statements and fails at the third
  abbrev pub failing_third : Bool → Tables → SqlError → List (Option SqlError) → Conn
  failing_third b t e later = record {
    tables = t;
    faults = none ∷ none ∷ some e ∷ later;
    enforces = b;
  }

  when_fails :
      (due : Bool) (f : Tables → Tables) (b : Bool) (t : Tables) (e : SqlError)
      (later : List (Option SqlError))
      → due ≡ true
      → when due (execute f) (record { tables = t; faults = some e ∷ later; enforces = b })
        ≡ (err e, record { tables = t; faults = later; enforces = b })
  when_fails true f b t e later h = refl
  when_fails false f b t e later h = cc

  fetch_fails :
      (clock : ℕ → ℕ) (u : String) (b : Bool) (t : Tables) (e : SqlError)
      (later : List (Option SqlError)) (msg : Envelope) (rest : List Envelope)
      → QueueIsNumbered t
      → waiting j u t ≡ msg ∷ rest
      → is_receipted msg ≡ true
      → fetch_messages j clock u (failing_third b t e later) ≡ (
        err e,
        record {
          tables = record t { messages = delete (is_to u) t.messages };
          faults = later;
          enforces = b;
        },
      )
  unfolding fetch_messages
  fetch_fails clock u b t e later msg rest numbered full due =
      let gone = record t { messages = delete (is_to u) t.messages } in
      let row = with_message u msg.sender_id (j.to_string (receipt_for j (clock 0) u msg)) in
      rw (in_order u t numbered) (
        rw full (
          >>=-err (queue_receipts j clock u (msg ∷ rest)) _ (
            >>=-err (when (is_receipted msg) (execute row)) _
              (when_fails (is_receipted msg) row b gone e later due))))

  -- Where the rows are numbered in the order of their table, the first message that waits for a
  -- user asks for a receipt, and the third statement, which queues that receipt, fails, the fetch
  -- returns the error, and none of the messages waits any more.
  pub fetch_loses_messages :
      (clock : ℕ → ℕ) (u : String) (b : Bool) (t : Tables) (e : SqlError)
      (later : List (Option SqlError)) (msg : Envelope) (rest : List Envelope)
      → QueueIsNumbered t
      → waiting j u t ≡ msg ∷ rest
      → is_receipted msg ≡ true
      → ((fetch_messages j clock u (failing_third b t e later)).0 ≡ err e)
        × (waiting j u (fetch_messages j clock u (failing_third b t e later)).1.tables ≡ [])
  unfolding decode_all
  fetch_loses_messages clock u b t e later msg rest numbered full due =
      let failed = fetch_fails clock u b t e later msg rest numbered full due in
      rw failed (refl, rw (select-delete_self (is_to u) t.messages))
