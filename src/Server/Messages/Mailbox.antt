-- ===== src/Server/Messages/Mailbox.antt =====
-- The queue as its users see it: for each user the envelopes that wait, in the order of sending.
use tintin.Prelude.{
  ℕ, suc, ◌≡◌, refl, sym, ap, ◌∙◌, Bool, true, false, ◌&&◌, String, List, [], ◌∷◌, ◌++◌, ok, arith,
  if◌then◌else◌, ◌==◌, text_eq, Bool-cases, inl, inr, Every, >>=-ok,
}
use mathlib.Core.List.{append_assoc, append-nil}
use text.Mathlib.TextEquality.{eq_iff}
use tintin.Prelude.Rows.{select, delete}
use tintin.Prelude.Rows.Laws.{select-append}
use tintin.Prelude.Rows.Order.{order_by, order_by_sorted}
use tintin.Prelude.Rows.Numbered.{id_le, IsNumbered, IsNumbered-select, IsNumbered-IsSorted}
use tintin.Core.Message.{Envelope, EnvelopeJson, ReadsBack, message_type_eq}
use tintin.Server.Db.{Tables, MessageRow, execute, when, reliable}
use tintin.Server.Db.Keep.{when-execute}
use tintin.Server.Messages.{
  is_to, with_message, is_receipted, queue_message, decode_all, receipt_for, queue_receipts,
  fetch_messages,
}

-- The rows of the queue are numbered in their order.
abbrev pub QueueIsNumbered : Tables → Type 0
QueueIsNumbered t = IsNumbered (λ (r : MessageRow). r.id) t.message_seq t.messages

module _ (j : EnvelopeJson) where
  -- the envelopes that wait for a user
  abbrev pub waiting : String → Tables → List Envelope
  waiting u t = decode_all j (select (is_to u) t.messages)

  -- the receipts that go to `v` when `u` fetches these messages
  pub receipts_to : (ℕ → ℕ) → String → List Envelope → String → List Envelope
  receipts_to clock u [] v = []
  receipts_to clock u (msg ∷ rest) v =
      let more = receipts_to (λ i. clock (suc i)) u rest v in
      if is_receipted msg && msg.sender_id == v then receipt_for j (clock 0) u msg ∷ more else more

  abbrev pub receipted : (ℕ → ℕ) → String → List Envelope → Tables → Tables
  receipted clock u [] t = t
  receipted clock u (msg ∷ rest) t =
      receipted (λ i. clock (suc i)) u rest
        (if is_receipted msg
          then with_message u msg.sender_id (j.to_string (receipt_for j (clock 0) u msg)) t
          else t)

  decode_all-append :
      (xs ys : List MessageRow) → decode_all j (xs ++ ys) ≡ decode_all j xs ++ decode_all j ys
  unfolding decode_all
  decode_all-append [] ys = refl
  decode_all-append (x ∷ xs) ys = ground (arith, decode_all-append xs ys)

  queue_receipts_run :
      (b : Bool) (clock : ℕ → ℕ) (u : String) (msgs : List Envelope) (t : Tables)
      → queue_receipts j clock u msgs (reliable b t)
        ≡ (ok tt, reliable b (receipted clock u msgs t))
  unfolding queue_receipts
  queue_receipts_run b clock u [] t = refl
  queue_receipts_run b clock u (msg ∷ rest) t =
      let row = with_message u msg.sender_id (j.to_string (receipt_for j (clock 0) u msg)) in
      >>=-ok (when (is_receipted msg) (execute row)) _ (when-execute (is_receipted msg) row b t)
      ∙ queue_receipts_run b (λ i. clock (suc i)) u rest (if is_receipted msg then row t else t)

module _ (j : EnvelopeJson) (reads : ReadsBack j) where
  waiting-with_message :
      (s r v : String) (e : Envelope) (t : Tables)
      → waiting j v (with_message s r (j.to_string e) t)
        ≡ (if r == v then waiting j v t ++ e ∷ [] else waiting j v t)
  unfolding select decode_all
  waiting-with_message s r v e t = rw select-append (
      rw decode_all-append (elim (Bool-cases (r == v)) [
        | inl same ↦ rw (same, decode_all) (rw (reads.from_str-to_string e, decode_all) refl)
        | inr other ↦ rw (other, decode_all) (append-nil _)
      ]))

  -- Where JSON reads back what it wrote and no statement fails, queueing an envelope puts it
  -- behind what waits for its recipient, and changes no other box.
  pub waiting-queue_message :
      (e : Envelope) (v : String) (b : Bool) (t : Tables)
      → (t' : Tables) × (queue_message j e (reliable b t) ≡ (ok tt, reliable b t'))
        × (waiting j v t'
            ≡ (if e.recipient_id == v then waiting j v t ++ e ∷ [] else waiting j v t))
  unfolding queue_message
  waiting-queue_message e v b t = (
    with_message e.sender_id e.recipient_id (j.to_string e) t,
    refl,
    waiting-with_message e.sender_id e.recipient_id v e t,
  )

  waiting-receipt :
      (s r v : String) (e : Envelope) (t : Tables) (more : List Envelope)
      → waiting j v (with_message s r (j.to_string e) t) ++ more
        ≡ waiting j v t ++ (if r == v then e ∷ more else more)
  waiting-receipt s r v e t more = rw (waiting-with_message s r v e t) (elim (Bool-cases (r == v)) [
    | inl same ↦ rw same (append_assoc (waiting j v t) (e ∷ []) more)
    | inr other ↦ rw other
  ])

  receipted_step :
      (due : Bool) (u v sender : String) (e : Envelope) (rest : List Envelope) (later : ℕ → ℕ)
      (t : Tables)
      → ((t' : Tables)
          → waiting j v (receipted j later u rest t')
            ≡ waiting j v t' ++ receipts_to j later u rest v)
      → waiting j v
          (receipted j later u rest (if due then with_message u sender (j.to_string e) t else t))
        ≡ waiting j v t
          ++ (if due && sender == v
              then e ∷ receipts_to j later u rest v
              else receipts_to j later u rest v)
  receipted_step true u v sender e rest later t ih =
      ih (with_message u sender (j.to_string e) t)
      ∙ waiting-receipt u sender v e t (receipts_to j later u rest v)
  receipted_step false u v sender e rest later t ih = ih t

  waiting-receipted :
      (clock : ℕ → ℕ) (u : String) (msgs : List Envelope) (t : Tables) (v : String)
      → waiting j v (receipted j clock u msgs t) ≡ waiting j v t ++ receipts_to j clock u msgs v
  unfolding receipts_to
  waiting-receipted clock u [] t v = sym (append-nil _)
  waiting-receipted clock u (msg ∷ rest) t v =
      receipted_step (is_receipted msg) u v msg.sender_id (receipt_for j (clock 0) u msg) rest
        (λ i. clock (suc i)) t (λ t'. waiting-receipted (λ i. clock (suc i)) u rest t' v)

  select-delete_to :
      (u v : String) (rows : List MessageRow)
      → select (is_to v) (delete (is_to u) rows) ≡ (if u == v then [] else select (is_to v) rows)
  unfolding select delete
  select-delete_to u v [] = ground arith
  select-delete_to u v (x ∷ xs) =
      ground (
        arith,
        select-delete_to u v xs,
        eq_iff x.recipient_id u,
        eq_iff x.recipient_id v,
        eq_iff u v,
      )

  waiting-deleted :
      (u v : String) (t : Tables)
      → waiting j v (record t { messages = delete (is_to u) t.messages })
        ≡ (if u == v then [] else waiting j v t)
  unfolding decode_all
  waiting-deleted u v t =
      ap (decode_all j) (select-delete_to u v t.messages)
      ∙ elim (Bool-cases (u == v)) [ inl same ↦ rw same | inr other ↦ rw other ]

  -- Where JSON reads back what it wrote, the rows are numbered in the order of their table and no
  -- statement fails, a fetch returns what waits for the user, in the order of sending. After it
  -- each other user has what waited before, and then a delivery receipt for each `Normal` and
  -- `PreKeyBundle` message of theirs among those fetched; of the user's own box only such
  -- receipts are left.
  pub waiting-fetch_messages :
      (clock : ℕ → ℕ) (u v : String) (b : Bool) (t : Tables)
      → QueueIsNumbered t
      → (t' : Tables) × (fetch_messages j clock u (reliable b t)
          ≡ (ok (waiting j u t), reliable b t'))
        × (waiting j v t'
            ≡ (if u == v then [] else waiting j v t) ++ receipts_to j clock u (waiting j u t) v)
  unfolding fetch_messages
  waiting-fetch_messages clock u v b t numbered =
      let rest = record t { messages = delete (is_to u) t.messages } in
      let mine = select (is_to u) t.messages in
      let in_order : order_by (id_le (λ (r : MessageRow). r.id)) mine ≡ mine =
        order_by_sorted _ mine (
          IsNumbered-IsSorted _ t.message_seq mine
            (IsNumbered-select _ t.message_seq (is_to u) t.messages numbered)) in
      (
        receipted j clock u (waiting j u t) rest,
        rw in_order (
            >>=-ok (queue_receipts j clock u (waiting j u t)) _
              (queue_receipts_run j b clock u (waiting j u t) rest)),
        waiting-receipted clock u (waiting j u t) rest v
            ∙ ap (λ l. l ++ receipts_to j clock u (waiting j u t) v) (waiting-deleted u v t),
      )

  -- no receipt is due for receipts and typing indicators
  receipts_to_none :
      (clock : ℕ → ℕ) (u v : String) (msgs : List Envelope)
      → Every (λ msg. is_receipted msg ≡ false) msgs
      → receipts_to j clock u msgs v ≡ []
  unfolding receipts_to
  receipts_to_none clock u v [] h = refl
  receipts_to_none clock u v (msg ∷ rest) h =
      ground (arith, h.0, receipts_to_none (λ i. clock (suc i)) u v rest h.1)

  -- Where JSON reads back what it wrote, the rows are numbered in the order of their table, no
  -- statement fails, and only receipts and typing indicators wait for a user, a fetch returns
  -- them, empties the user's box and leaves all others as they are.
  pub receipts_end :
      (clock : ℕ → ℕ) (u v : String) (b : Bool) (t : Tables)
      → QueueIsNumbered t
      → Every (λ msg. is_receipted msg ≡ false) (waiting j u t)
      → (t' : Tables) × (fetch_messages j clock u (reliable b t)
          ≡ (ok (waiting j u t), reliable b t'))
        × (waiting j v t' ≡ (if u == v then [] else waiting j v t))
  receipts_end clock u v b t numbered quiet =
      let (t', fetched, left) = waiting-fetch_messages clock u v b t numbered in
      (
        t',
        fetched,
        left
            ∙ ap (λ l. (if u == v then [] else waiting j v t) ++ l)
                (receipts_to_none clock u v (waiting j u t) quiet)
            ∙ append-nil _,
      )
