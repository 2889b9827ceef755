-- ===== src/Server/Db.antt =====
-- The schema of store.rs, and a connection on which any statement may fail. The operations that
-- lock the connection run one after another, so that each is a function on it.
pub mod Keep
use Prim.Native.Nat.{Ordering}
use Prim.Native.String.{compare}
use tintin.Prelude.{
  ℕ, ◌≡◌, refl, Bool, true, String, List, [], ◌∷◌, Option, none, some, Result, ok, err, Exec, false,
  pure,
}
use tintin.Core.Crypto.{Bytes}

pub record UserRow : Type 0 where
  pub user_id : String
  pub identity_key : Bytes
  pub signed_pre_key : String
  pub presence : String

pub record MessageRow : Type 0 where
  pub id : ℕ
  pub sender_id : String
  pub recipient_id : String
  pub envelope : String

pub record GroupRow : Type 0 where
  pub group_id : String
  pub name : String
  pub creator : String

pub record MemberRow : Type 0 where
  pub group_id : String
  pub user_id : String
  pub role : String

pub record StatusRow : Type 0 where
  pub user_id : String
  pub content : String
  pub created_at : ℕ

pub record ChannelRow : Type 0 where
  pub channel_id : ℕ
  pub name : String
  pub owner_id : String

pub record SubscriberRow : Type 0 where
  pub channel_id : ℕ
  pub user_id : String

-- `created_at` is the text of the time of creation, which orders as the time does.
pub record PollRow : Type 0 where
  pub poll_id : ℕ
  pub creator : String
  pub question : String
  pub active : ℕ
  pub created_at : ℕ

pub record OptionRow : Type 0 where
  pub option_id : ℕ
  pub poll_id : ℕ
  pub option_text : String

pub record VoteRow : Type 0 where
  pub poll_id : ℕ
  pub user_id : String
  pub option_id : ℕ

pub record PostRow : Type 0 where
  pub post_id : ℕ
  pub user_id : String
  pub target_user_id : Option String
  pub content : String
  pub created_at : ℕ

pub record CommentRow : Type 0 where
  pub comment_id : ℕ
  pub post_id : ℕ
  pub user_id : String
  pub content : String
  pub created_at : ℕ

-- The rows of each table, and for each AUTOINCREMENT key the last number given.
pub record Tables : Type 0 where
  pub users : List UserRow
  pub messages : List MessageRow
  pub message_seq : ℕ
  pub groups : List GroupRow
  pub group_members : List MemberRow
  pub statuses : List StatusRow
  pub channels : List ChannelRow
  pub channel_seq : ℕ
  pub channel_subscribers : List SubscriberRow
  pub polls : List PollRow
  pub poll_seq : ℕ
  pub poll_options : List OptionRow
  pub option_seq : ℕ
  pub poll_votes : List VoteRow
  pub timeline_posts : List PostRow
  pub post_seq : ℕ
  pub timeline_comments : List CommentRow
  pub comment_seq : ℕ

-- what CREATE TABLE IF NOT EXISTS leaves in a new file
abbrev pub new_tables : Tables
new_tables = record {
  users = [];
  messages = [];
  message_seq = 0;
  groups = [];
  group_members = [];
  statuses = [];
  channels = [];
  channel_seq = 0;
  channel_subscribers = [];
  polls = [];
  poll_seq = 0;
  poll_options = [];
  option_seq = 0;
  poll_votes = [];
  timeline_posts = [];
  post_seq = 0;
  timeline_comments = [];
  comment_seq = 0;
}

-- What a call returns in place of a result: a fault of the database with its text, a broken
-- constraint, or the refusal of `vote_poll` in its words.
pub data SqlError : Type 0 where
  fault : String → SqlError
  unique_violation foreign_key_violation : SqlError
  refusal : String → SqlError

-- `faults` says of the statements to come which fail: none where the list has ended. `enforces`
-- says whether SQLite was built to enforce foreign keys.
pub record Conn : Type 0 where
  pub tables : Tables
  pub faults : List (Option SqlError)
  pub enforces : Bool

abbrev pub Db : Type 0 → Type 0
Db A = Exec Conn SqlError A

-- A connection on which no statement fails.
abbrev pub reliable : Bool → Tables → Conn
reliable enforces tables = record { tables = tables; faults = []; enforces = enforces }

abbrev pub next_fault : List (Option SqlError) → Option SqlError
next_fault [] = none
next_fault (f ∷ rest) = f

abbrev pub later_faults : List (Option SqlError) → List (Option SqlError)
later_faults [] = []
later_faults (f ∷ rest) = rest

-- A statement that fails changes nothing.
abbrev pub statement : {A : Type 0} → (Bool → Tables → Result SqlError A × Tables) → Db A
statement f c = elim (next_fault c.faults) [
  | some e ↦ (err e, record c { faults = later_faults c.faults })
  | none ↦
      let (r, t) = f c.enforces c.tables in
      (r, record c { tables = t; faults = later_faults c.faults })
]

-- SELECT
abbrev pub query : {A : Type 0} → (Tables → A) → Db A
query f = statement (λ _ t. (ok (f t), t))

-- `conn.prepare(..)?` where what the statement then returns is handled apart
abbrev pub prepare : Db (Unit {0})
prepare = query (λ _. tt)

-- INSERT, UPDATE and DELETE with what they return
abbrev pub change : {A : Type 0} → (Tables → A × Tables) → Db A
change f = statement (λ _ t. (ok (f t).0, (f t).1))

abbrev pub execute : (Tables → Tables) → Db (Unit {0})
execute f = statement (λ _ t. (ok tt, f t))

-- `if b { m }`
abbrev pub when : Bool → Db (Unit {0}) → Db (Unit {0})
when true m = m
when false m = pure tt

-- what a statement returns that the constraints may refuse
abbrev pub verdict :
    Option SqlError → (Tables → Tables) → Tables → Result SqlError (Unit {0}) × Tables
verdict (some e) f t = (err e, t)
verdict none f t = (ok tt, f t)

-- A statement that the constraints may refuse; then it changes nothing.
abbrev pub checked : (Bool → Tables → Option SqlError) → (Tables → Tables) → Db (Unit {0})
checked check f = statement (λ b t. verdict (check b t) f t)

-- a REFERENCES clause, where foreign keys are enforced
abbrev pub references : Bool → Bool → Option SqlError
references true false = some foreign_key_violation
references enforces found = none

-- a PRIMARY KEY
abbrev pub primary_key : Bool → Option SqlError
primary_key true = some unique_violation
primary_key false = none

-- the collation of TEXT columns
abbrev pub text_le : String → String → Bool
text_le a b = elim (compare a b) [ Ordering.gt ↦ false | _ ↦ true ]

abbrev pub ok_or : {A : Type 0} → A → Result SqlError A → A
ok_or default (ok a) = a
ok_or default (err e) = default

-- `.unwrap_or(false)`, `.ok()` and `.unwrap_or(None)` on the result of a call
abbrev pub or_else : {A : Type 0} → A → Db A → Db A
or_else default m c = let (r, c') = m c in (ok (ok_or default r), c')

abbrev pub or_false : Db Bool → Db Bool
or_false = or_else false

abbrev pub or_none : {A : Type 0} → Db (Option A) → Db (Option A)
or_none = or_else none
