-- ===== src/Server/Polls.antt =====
-- The polls of tintin-server/src/store.rs.
pub mod Ballots
pub mod Results
pub mod Voting
pub mod Making
use tintin.Prelude.{
  ℕ, ◌+◌, ◌≡◌, refl, Bool, true, false, not, ◌&&◌, String, List, [], ◌∷◌, ◌++◌, Option, none, some,
  map, pure, raise, ◌>>=◌, ◌>>◌, if◌then◌else◌, leb, ◌==◌, text_eq, number_eq,
}
use tintin.Prelude.Rows.{select, delete, update, exists, count, find}
use tintin.Prelude.Rows.Order.{order_by}
use tintin.Prelude.Rows.Numbered.{id_le}
use tintin.Server.Db.{
  Tables, PollRow, OptionRow, VoteRow, Db, refusal, query, prepare, change, execute, checked,
  references, or_false, or_none,
}

abbrev pub is_poll : ℕ → PollRow → Bool
is_poll poll_id row = row.poll_id == poll_id

abbrev pub is_vote_of : ℕ → String → VoteRow → Bool
is_vote_of poll_id user_id row = row.poll_id == poll_id && row.user_id == user_id

abbrev pub is_option_of : ℕ → ℕ → OptionRow → Bool
is_option_of option_id poll_id row = row.option_id == option_id && row.poll_id == poll_id

abbrev pub with_poll : ℕ → String → String → Tables → Tables
with_poll now creator question t = record t {
  polls =
      t.polls
      ++ record {
        poll_id = t.poll_seq + 1;
        creator = creator;
        question = question;
        active = 1;
        created_at = now;
      }
        ∷ [];
  poll_seq = t.poll_seq + 1;
}

abbrev pub with_option : ℕ → String → Tables → Tables
with_option poll_id text t = record t {
  poll_options =
      t.poll_options
      ++ record { option_id = t.option_seq + 1; poll_id = poll_id; option_text = text } ∷ [];
  option_seq = t.option_seq + 1;
}

abbrev pub with_vote : ℕ → String → ℕ → Tables → Tables
with_vote poll_id user_id option_id t = record t {
  poll_votes =
      delete (is_vote_of poll_id user_id) t.poll_votes
      ++ record { poll_id = poll_id; user_id = user_id; option_id = option_id } ∷ [];
}

-- the loop over the options
unfoldable pub insert_options : ℕ → List String → Db (Unit {0})
insert_options poll_id [] = pure tt
insert_options poll_id (opt ∷ rest) = do
  checked (λ b t. references b (exists (is_poll poll_id) t.polls)) (with_option poll_id opt)
  insert_options poll_id rest

unfoldable pub create_poll : ℕ → String → String → List String → Db ℕ
unfolding insert_options
create_poll now creator question options = do
  poll_id ← change (λ t. (t.poll_seq + 1, with_poll now creator question t))
  insert_options poll_id options
  pure poll_id

-- A poll that is not there, or whose query fails, counts as closed; an error of `prepare` is
-- returned.
abbrev pub is_open : ℕ → Tables → Bool
is_open poll_id t = elim (find (is_poll poll_id) t.polls) [
  | none ↦ false
  | some row ↦ not (row.active == 0)
]

unfoldable pub vote_poll : ℕ → String → ℕ → Db (Unit {0})
vote_poll poll_id user_id option_id = do
  prepare
  active ← or_false (query (is_open poll_id))
  if active
      then (do
        n ← query (λ t. count (is_option_of option_id poll_id) t.poll_options)
        if n == 0
            then raise (refusal "Option not found")
            else checked (λ b t. references b (exists (is_poll poll_id) t.polls))
                (with_vote poll_id user_id option_id))
      else raise (refusal "Poll is closed")

pub record OptionResult : Type 0 where
  pub option_id : ℕ
  pub option_text : String
  pub votes : ℕ

pub record PollResults : Type 0 where
  pub poll_id : ℕ
  pub question : String
  pub creator : String
  pub active : Bool
  pub options : List OptionResult

-- poll_options LEFT JOIN poll_votes, grouped by option
unfoldable pub tally : ℕ → Tables → List OptionResult
tally poll_id t =
    map
      (λ (o : OptionRow). record {
        option_id = o.option_id;
        option_text = o.option_text;
        votes = count (λ (v : VoteRow). o.option_id == v.option_id) t.poll_votes;
      })
      (order_by (id_le (λ (o : OptionRow). o.option_id))
        (select (λ (o : OptionRow). o.poll_id == poll_id) t.poll_options))

-- The first query's error is as if there were no poll (`.ok()`), unless it comes from `prepare`.
unfoldable pub poll_results : ℕ → Db (Option PollResults)
unfolding tally
poll_results poll_id = do
  prepare
  poll ← or_none (query (λ t. find (is_poll poll_id) t.polls))
  elim poll [
    | none ↦ pure none
    | some row ↦ do
      options ← query (tally poll_id)
      pure (
          some (record {
            poll_id = poll_id;
            question = row.question;
            creator = row.creator;
            active = not (row.active == 0);
            options = options;
          }))
  ]

unfoldable pub list_active_polls : Db (List PollRow)
list_active_polls = query (λ t.
    order_by (λ (a b : PollRow). leb b.created_at a.created_at)
      (select (λ (p : PollRow). p.active == 1) t.polls))

unfoldable pub close_poll : ℕ → String → Db Bool
close_poll poll_id user_id = do
  prepare
  creator ← or_none (query (λ t. find (is_poll poll_id) t.polls))
  elim creator [
    | none ↦ pure false
    | some row ↦
        if row.creator == user_id
        then (do
          execute (λ t. record t {
            polls = update (is_poll poll_id) (λ (p : PollRow). record p { active = 0 }) t.polls;
          })
          pure true)
        else pure false
  ]
