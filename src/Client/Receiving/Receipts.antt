-- ===== src/Client/Receiving/Receipts.antt =====
-- What a receipt changes.
use tintin.Prelude.{
  ◌≡◌, refl, ap, Bool, true, false, inl, inr, List, [], ◌∷◌, ◌++◌, some, ok, arith, Bool-cases,
}
use tintin.Prelude.Rows.{exists}
use tintin.Core.Message.{Envelope, receipt, ReceiptContent}
use tintin.Client.State.{SentMessage, MessageStatus, Outside, Device}
use tintin.Client.Receiving.{is_receipted, status_of, mark_first, take_envelope}

-- `after` is `before` with the status of the first message that passes the test, if there is one.
pub data Marks (p : SentMessage → Bool) (status : MessageStatus)
    : List SentMessage → List SentMessage → Type 0 where
  nothing : {ms : List SentMessage} → exists p ms ≡ false → Marks p status ms ms
  first :
      {ms ms' : List SentMessage} (front rest : List SentMessage) (m : SentMessage)
      → ms ≡ front ++ m ∷ rest
      → exists p front ≡ false
      → p m ≡ true
      → ms' ≡ front ++ record m { status = status } ∷ rest
      → Marks p status ms ms'

behind :
    {p : SentMessage → Bool} {status : MessageStatus} {ms ms' : List SentMessage} (m : SentMessage)
    → p m ≡ false
    → Marks p status ms ms'
    → Marks p status (m ∷ ms) (m ∷ ms')
unfolding exists
behind m h (nothing none_there) = nothing (ground arith)
behind m h (first front rest x split absent there made) =
    first (m ∷ front) rest x (ap (λ (l : List SentMessage). m ∷ l) split) (ground arith) there
      (ap (λ (l : List SentMessage). m ∷ l) made)

mark_first-Marks :
    (p : SentMessage → Bool) (status : MessageStatus) (ms : List SentMessage)
    → Marks p status ms (mark_first p status ms)
unfolding mark_first exists
mark_first-Marks p status [] = nothing refl
mark_first-Marks p status (m ∷ ms) = elim (Bool-cases (p m)) [
  | inl there ↦ first [] ms m refl refl there (rw there refl)
  | inr other ↦ rw other (behind m other (mark_first-Marks p status ms))
]

-- A receipt that is read always returns. It changes nothing but the sent messages: the first of them
-- to the receipt's sender with the receipt's timestamp, if there is one, becomes delivered or read,
-- as the receipt says and whatever it was before.
pub take_envelope-Marks :
    {R : Type 0} (o : Outside R) (envelope : Envelope) (content : ReceiptContent) (d : Device R)
    → envelope.msg_type ≡ receipt
    → o.codec.receipt_from_slice envelope.content ≡ some content
    → (after : List SentMessage) × (take_envelope o envelope d
        ≡ (ok tt, record d { me = record d.me { sent_messages = after } }))
      × Marks
          (is_receipted envelope.sender_id content.original_timestamp)
          (status_of content.receipt_type)
          d.me.sent_messages
          after
unfolding take_envelope
take_envelope-Marks o envelope content d is_receipt readable = (
  mark_first (is_receipted envelope.sender_id content.original_timestamp)
      (status_of content.receipt_type) d.me.sent_messages,
  rw (is_receipt, take_envelope) (rw readable refl),
  mark_first-Marks (is_receipted envelope.sender_id content.original_timestamp)
      (status_of content.receipt_type) d.me.sent_messages,
)
