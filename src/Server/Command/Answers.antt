-- ===== src/Server/Command/Answers.antt =====
-- What the responses of tintin-server/src/main.rs say.
pub mod RoomHandlers
pub mod FeedHandlers
pub mod Handlers
use tintin.Prelude.{
  ℕ, ◌≡◌, refl, ap, Bool, true, false, not, ◌&&◌, String, List, [], ◌∷◌, Option, none, some, Result,
  ok, err, Every, if◌then◌else◌, ◌==◌, text_eq, ltb, length, Bool-cases, inl, inr, ◌⊎◌, arith,
}
use tintin.Server.Db.{Conn, Db, SqlError, ok_or}
use tintin.Server.Command.Payload.{Json}
use tintin.Server.Command.Response.{
  Data, Problem, ServerResponse, success, failure, Handled, answer_of, reply, refuse, payload,
  invalid_json, missing_cmd, unknown_command,
}

-- A response with status "ok" has no error; one with status "error" has an error and no data.
pub IsWellFormed : {V : Type 0} → ServerResponse V → Type 0
IsWellFormed {V} r =
    ((r.status ≡ "ok") × (r.error ≡ none))
    ⊎ ((r.status ≡ "error") × (r.data_json ≡ none) × ((p : Problem) × (r.error ≡ some p)))

pub failure-IsWellFormed : (V : Type 0) (p : Problem) → IsWellFormed (failure {V = V} p)
unfolding IsWellFormed
failure-IsWellFormed V p = inr (refl, refl, (p, refl))

module _ {V : Type 0} where
  pub success-IsWellFormed : (d : Option (Data V)) → IsWellFormed (success d)
  unfolding IsWellFormed
  success-IsWellFormed d = inl (refl, refl)

  -- A handler that gives a well-formed response on every connection.
  pub record Answers (h : Handled V) : Type 0 where
    pub at : (c : Conn) → IsWellFormed (h c).0

  answer_of-IsWellFormed :
      {A : Type 0} (f : A → ServerResponse V) (k : SqlError → Problem) (r : Result SqlError A)
      → ((a : A) → IsWellFormed (f a))
      → IsWellFormed (answer_of f k r)
  answer_of-IsWellFormed f k (ok a) h = h a
  answer_of-IsWellFormed f k (err e) h = failure-IsWellFormed _ (k e)

  pub reply-Answers :
      {A : Type 0} (m : Db A) (f : A → ServerResponse V) (k : SqlError → Problem)
      → ((a : A) → IsWellFormed (f a))
      → Answers (reply m f k)
  reply-Answers m f k h = record { at = λ c. answer_of-IsWellFormed f k (m c).0 h }

  pub refuse-Answers : (p : Problem) → Answers (refuse p)
  refuse-Answers p = record { at = λ c. failure-IsWellFormed _ p }

  pub payload-Answers :
      {C : Type 0} (name : String) (r : Result String C) (h : C → Handled V)
      → ((cmd : C) → Answers (h cmd))
      → Answers (payload name r h)
  payload-Answers name (ok cmd) h k = k cmd
  payload-Answers name (err e) h k = refuse-Answers (Problem.invalid_payload name e)

  pub if-Answers :
      (b : Bool) (h k : Handled V) → Answers h → Answers k → Answers (if b then h else k)
  if-Answers true h k x y = x
  if-Answers false h k x y = y
