-- ===== src/Server/Db/Keep.antt =====
-- Invariants of the tables: what each statement of an operation keeps, the operation keeps,
-- whether it returns or fails.
use tintin.Prelude.{
  ◌≡◌, refl, ap, List, ◌∷◌, Bool, true, false, Option, none, some, Result, ok, err, pure, raise,
  continue, ◌>>=◌, ◌>>◌, if◌then◌else◌,
}
use tintin.Server.Db.{
  Tables, Conn, Db, SqlError, statement, query, prepare, change, execute, next_fault, later_faults,
  or_else, when, reliable, checked, verdict,
}

-- On any connection, whatever statements fail, the tables that `m` leaves are as the tables it
-- finds.
pub record Preserves {A : Type 0} (P : Tables → Type 0) (m : Db A) : Type 0 where
  pub at : (c : Conn) → P c.tables → P (m c).1.tables

module _ {A : Type 0} {P : Tables → Type 0} where
  pub Preserves-pure : (a : A) → Preserves P (pure a)
  Preserves-pure a = record { at = λ c h. h }

  pub Preserves-raise : (e : SqlError) → Preserves P (raise {A = A} e)
  Preserves-raise e = record { at = λ c h. h }

  statement_at :
      (f : Bool → Tables → Result SqlError A × Tables) (c : Conn) (o : Option SqlError)
      → ((b : Bool) (t : Tables) → P t → P (f b t).1)
      → P c.tables
      → next_fault c.faults ≡ o
      → P (statement f c).1.tables
  statement_at f c none k h e = rw (e, statement) (k c.enforces c.tables h)
  statement_at f c (some x) k h e = rw (e, statement) h

  pub Preserves-statement :
      (f : Bool → Tables → Result SqlError A × Tables)
      → ((b : Bool) (t : Tables) → P t → P (f b t).1)
      → Preserves P (statement f)
  Preserves-statement f k = record { at = λ c h. statement_at f c (next_fault c.faults) k h refl }

  pub Preserves-query : (f : Tables → A) → Preserves P (query f)
  Preserves-query f = Preserves-statement (λ _ t. (ok (f t), t)) (λ b t h. h)

  pub Preserves-change :
      (f : Tables → A × Tables) → ((t : Tables) → P t → P (f t).1) → Preserves P (change f)
  Preserves-change f k = Preserves-statement (λ _ t. (ok (f t).0, (f t).1)) (λ b t h. k t h)

  pub Preserves-if :
      (b : Bool) (m n : Db A) → Preserves P m → Preserves P n → Preserves P (if b then m else n)
  Preserves-if true m n km kn = km
  Preserves-if false m n km kn = kn

module _ {P : Tables → Type 0} where
  pub Preserves-execute :
      (f : Tables → Tables) → ((t : Tables) → P t → P (f t)) → Preserves P (execute f)
  Preserves-execute f k = Preserves-statement (λ _ t. (ok tt, f t)) (λ b t h. k t h)

  pub Preserves-when : (b : Bool) (m : Db (Unit {0})) → Preserves P m → Preserves P (when b m)
  Preserves-when true m km = km
  Preserves-when false m km = Preserves-pure tt

module _ {A B : Type 0} {P : Tables → Type 0} where
  continue_at :
      (r : Result SqlError A) (f : A → Db B) (c : Conn)
      → ((a : A) → Preserves P (f a))
      → P c.tables
      → P (continue r f c).1.tables
  continue_at (ok a) f c k h = (k a).at c h
  continue_at (err e) f c k h = h

  pub Preserves-bind :
      (m : Db A) (f : A → Db B)
      → Preserves P m
      → ((a : A) → Preserves P (f a))
      → Preserves P (m >>= f)
  Preserves-bind m f km kf = record { at = λ c h. continue_at (m c).0 f (m c).1 kf (km.at c h) }

module _ {A : Type 0} {P : Tables → Type 0} where
  pub Preserves-prepare : (m : Db A) → Preserves P m → Preserves P (prepare >> m)
  Preserves-prepare m k = Preserves-bind prepare (λ _. m) (Preserves-query _) (λ _. k)

module _ {A B : Type 0} where
  query_at :
      (P : Tables → Type 0) (f : Tables → A) (g : A → Db B) (c : Conn) (o : Option SqlError)
      → ((a : A) (c' : Conn) → P c'.tables → f c'.tables ≡ a → P (g a c').1.tables)
      → P c.tables
      → next_fault c.faults ≡ o
      → P ((query f >>= g) c).1.tables
  query_at P f g c none k h e =
      rw (e, statement) (k (f c.tables) (record c { faults = later_faults c.faults }) h refl)
  query_at P f g c (some x) k h e = rw (e, statement) h

  -- What follows a query finds the tables as the query saw them.
  pub Preserves-query_bind :
      {P : Tables → Type 0} (f : Tables → A) (g : A → Db B)
      → ((a : A) (c : Conn) → P c.tables → f c.tables ≡ a → P (g a c).1.tables)
      → Preserves P (query f >>= g)
  Preserves-query_bind {P} f g k = record {
    at = λ c h. query_at P f g c (next_fault c.faults) k h refl;
  }

module _ {A : Type 0} {P : Tables → Type 0} where
  pub Preserves-or_else : (default : A) (m : Db A) → Preserves P m → Preserves P (or_else default m)
  Preserves-or_else default m k = record { at = k.at }

-- What a checked statement keeps may rest on its constraints.
pub Preserves-checked :
    {P : Tables → Type 0} (check : Bool → Tables → Option SqlError) (f : Tables → Tables)
    → ((b : Bool) (t : Tables) → P t → check b t ≡ none → P (f t))
    → Preserves P (checked check f)
Preserves-checked {P} check f k =
    Preserves-statement (λ b t. verdict (check b t) f t) (λ b t h. go b t h (check b t) refl)
  where
    go : (b : Bool) (t : Tables) → P t → (o : Option SqlError) → check b t ≡ o → P (verdict o f t).1
    go b t h none e = k b t h e
    go b t h (some x) e = h

pub ruleset preserves_rules =
    (Preserves-pure, Preserves-raise, Preserves-bind, Preserves-query, Preserves-if, Preserves-when)

-- A conditional statement, where no statement fails.
pub when-execute :
    (p : Bool) (f : Tables → Tables) (b : Bool) (t : Tables)
    → when p (execute f) (reliable b t) ≡ (ok tt, reliable b (if p then f t else t))
when-execute true f b t = refl
when-execute false f b t = refl

-- A statement that the constraints allow, where it does not fail.
pub checked-reliable :
    (check : Bool → Tables → Option SqlError) (f : Tables → Tables) (b : Bool) (t : Tables)
    → check b t ≡ none
    → checked check f (reliable b t) ≡ (ok tt, reliable b (f t))
checked-reliable check f b t h =
    ap
      (λ (o : Option SqlError).
        let r : Result SqlError (Unit {0}) × Tables = verdict o f t in
        let out : Result SqlError (Unit {0}) × Conn = (r.0, reliable b r.1) in out)
      h

pub checked-next :
    (check : Bool → Tables → Option SqlError) (f : Tables → Tables) (b : Bool) (t : Tables)
    (later : List (Option SqlError))
    → check b t ≡ none
    → checked check f (record { tables = t; faults = none ∷ later; enforces = b })
      ≡ (ok tt, record { tables = f t; faults = later; enforces = b })
checked-next check f b t later h =
    ap
      (λ (o : Option SqlError).
        let r : Result SqlError (Unit {0}) × Tables = verdict o f t in
        let out : Result SqlError (Unit {0}) × Conn =
          (r.0, record { tables = r.1; faults = later; enforces = b }) in
        out)
      h
