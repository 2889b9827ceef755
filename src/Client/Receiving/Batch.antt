-- ===== src/Client/Receiving/Batch.antt =====
-- A batch of envelopes, one of which is not read.
use tintin.Prelude.{◌≡◌, refl, String, List, [], ◌∷◌, ◌++◌, Result, ok, err, continue}
use tintin.Core.Message.{Envelope}
use tintin.Client.State.{ClientError, malformed, Outside, Device, Run}
use tintin.Client.Receiving.{take_envelope, take_all}

module _ {R : Type 0} (o : Outside R) where
  continue-same :
      (x : Result ClientError (Unit {0}) × Device R) (k k' : Run R (Unit {0}))
      → ((d : Device R) → k d ≡ k' d)
      → continue x.0 (λ _. k) x.1 ≡ continue x.0 (λ _. k') x.1
  continue-same (ok a, d) k k' h = h d
  continue-same (err e, d) k k' h = refl

  continue_fails :
      (x : Result ClientError (Unit {0}) × Device R) (k : Run R (Unit {0}))
      → ((d : Device R) → (e : ClientError) × ((k d).0 ≡ err e))
      → (e : ClientError) × ((continue x.0 (λ _. k) x.1).0 ≡ err e)
  continue_fails (ok a, d) k h = h d
  continue_fails (err e, d) k h = (e, refl)

  -- Where an answer holds an envelope that is not read, the whole receipt of the answer fails, and
  -- the envelopes after that one are lost: the client ends as if they had not been in the answer.
  pub take_all_malformed :
      (front rest : List (Result String Envelope)) (why : String) (d : Device R)
      → ((e : ClientError) × ((take_all o (front ++ err why ∷ rest) d).0 ≡ err e))
        × (take_all o (front ++ err why ∷ rest) d ≡ take_all o (front ++ err why ∷ []) d)
  unfolding take_all
  take_all_malformed [] rest why d = ((malformed why, refl), refl)
  take_all_malformed (err e ∷ front) rest why d = ((malformed e, refl), refl)
  take_all_malformed (ok envelope ∷ front) rest why d = (
    continue_fails (take_envelope o envelope d) (take_all o (front ++ err why ∷ rest))
        (λ e. (take_all_malformed front rest why e).0),
    continue-same (take_envelope o envelope d) (take_all o (front ++ err why ∷ rest))
        (take_all o (front ++ err why ∷ [])) (λ e. (take_all_malformed front rest why e).1),
  )
