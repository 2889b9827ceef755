-- ===== src/Server/Consistency/Keeps.antt =====
-- Handlers of tintin-server/src/main.rs against the invariant of the tables: how they are put
-- together.
use tintin.Prelude.{Bool, true, false, String, Result, ok, err, text_eq, number_eq, if◌then◌else◌}
use tintin.Server.Db.{Db, Conn, SqlError}
use tintin.Server.Db.Keep.{Preserves}
use tintin.Server.Consistency.{IsConsistent}
use tintin.Server.Command.Response.{ServerResponse, Problem, Handled, reply, refuse, payload}

-- A handler that leaves consistent tables where it finds them, whatever statements fail.
pub record Keeps {V : Type 0} (h : Handled V) : Type 0 where
  pub at : (c : Conn) → IsConsistent c.tables → IsConsistent (h c).1.tables

module _ {V : Type 0} where
  pub reply-Keeps :
      {A : Type 0} (m : Db A) (f : A → ServerResponse V) (k : SqlError → Problem)
      → Preserves IsConsistent m
      → Keeps (reply m f k)
  reply-Keeps m f k h = record { at = h.at }

  pub refuse-Keeps : (p : Problem) → Keeps (refuse {V = V} p)
  refuse-Keeps p = record { at = λ c h. h }

  pub payload-Keeps :
      {C : Type 0} (name : String) (r : Result String C) (h : C → Handled V)
      → ((cmd : C) → Keeps (h cmd))
      → Keeps (payload name r h)
  payload-Keeps name (ok cmd) h k = k cmd
  payload-Keeps name (err e) h k = record { at = λ c h. h }

  pub if-Keeps : (b : Bool) (h k : Handled V) → Keeps h → Keeps k → Keeps (if b then h else k)
  if-Keeps true h k x y = x
  if-Keeps false h k x y = y
