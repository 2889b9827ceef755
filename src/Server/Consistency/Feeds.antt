-- ===== src/Server/Consistency/Feeds.antt =====
-- The operations of store.rs on polls and on the timeline, against the invariant.
use tintin.Prelude.{
  ℕ, ◌+◌, ◌≡◌, refl, true, false, String, List, [], ◌∷◌, Option, none, some, pure, raise, ◌>>◌,
  arith, text_eq, number_eq, ◌==◌, if◌then◌else◌, Bool-cases, inl, inr, Every, Every-append,
}
use tintin.Prelude.Rows.{delete, update, exists, count}
use tintin.Prelude.Rows.Laws.{
  Distinct-delete, Distinct-append, Every-delete, exists-delete_self, exists-append, count-zero,
}
use tintin.Prelude.Rows.Numbered.{IsNumbered-append, IsNumbered-delete, IsNumbered-update}
use tintin.Server.Db.{
  Tables, Conn, Db, PollRow, OptionRow, VoteRow, PostRow, CommentRow, SqlError, checked, execute,
  references,
}
use tintin.Server.Db.Keep.{
  Preserves, Preserves-execute, Preserves-checked, Preserves-change, Preserves-bind,
  Preserves-query, Preserves-query_bind, Preserves-pure, Preserves-raise, Preserves-if,
  Preserves-or_else, Preserves-prepare,
}
use tintin.Server.Polls.{
  create_poll, insert_options, vote_poll, close_poll, is_poll, is_vote_of, is_option_of, is_open,
  with_option, with_vote,
}
use tintin.Server.Timeline.{create_post, delete_post, add_comment, is_comment_on, is_post_of}
use tintin.Server.Consistency.{IsConsistent}

offered_still :
    (p o q : ℕ) (text : String) (t : Tables)
    → exists (is_option_of o q) t.poll_options ≡ true
    → exists (is_option_of o q) (with_option p text t).poll_options ≡ true
offered_still p o q text t h = rw exists-append (rw h refl)

offered_all :
    (p : ℕ) (text : String) (t : Tables) (votes : List VoteRow)
    → Every
        (λ (v : VoteRow). exists (is_option_of v.option_id v.poll_id) t.poll_options ≡ true)
        votes
    → Every
        (λ (v : VoteRow).
          exists (is_option_of v.option_id v.poll_id) (with_option p text t).poll_options ≡ true)
        votes
offered_all p text t [] h = tt
offered_all p text t (v ∷ votes) h =
    (offered_still p v.option_id v.poll_id text t h.0, offered_all p text t votes h.1)

with_option-IsConsistent :
    (p : ℕ) (text : String) (t : Tables) → IsConsistent t → IsConsistent (with_option p text t)
with_option-IsConsistent p text t h = assumption (
  IsNumbered-append (λ (r : OptionRow). r.option_id) t.option_seq t.poll_options
      (record { option_id = t.option_seq + 1; poll_id = p; option_text = text }) refl h.options,
  offered_all p text t t.poll_votes h.match,
)

insert_options-IsConsistent :
    (p : ℕ) (options : List String) → Preserves IsConsistent (insert_options p options)
unfolding insert_options
insert_options-IsConsistent p [] = Preserves-pure tt
insert_options-IsConsistent p (opt ∷ rest) =
    Preserves-bind _ _ (Preserves-checked _ _ λ b t h free. with_option-IsConsistent p opt t h)
      λ _. insert_options-IsConsistent p rest

pub create_poll-IsConsistent :
    (now : ℕ) (creator question : String) (options : List String)
    → Preserves IsConsistent (create_poll now creator question options)
unfolding create_poll
create_poll-IsConsistent now creator question options =
    Preserves-bind _ _
      (Preserves-change _ λ t h. assumption (
        IsNumbered-append (λ (r : PollRow). r.poll_id) t.poll_seq t.polls
          (record {
            poll_id = t.poll_seq + 1;
            creator = creator;
            question = question;
            active = 1;
            created_at = now;
          })
          refl h.polls))
      λ poll_id.
        Preserves-bind _ _ (insert_options-IsConsistent poll_id options) λ _. Preserves-pure _

with_vote-IsConsistent :
    (p o : ℕ) (u : String) (t : Tables)
    → exists (is_option_of o p) t.poll_options ≡ true
    → IsConsistent t
    → IsConsistent (with_vote p u o t)
with_vote-IsConsistent p o u t offered h =
    let kept = delete (is_vote_of p u) t.poll_votes in
    let vote : VoteRow = record { poll_id = p; user_id = u; option_id = o } in
    assumption (
      Distinct-append (λ (a b : VoteRow). is_vote_of b.poll_id b.user_id a) kept vote
          (Distinct-delete _ (is_vote_of p u) t.poll_votes h.votes)
          (exists-delete_self (is_vote_of p u) t.poll_votes),
      Every-append
          (λ (v : VoteRow). exists (is_option_of v.option_id v.poll_id) t.poll_options ≡ true) kept
          (vote ∷ []) (Every-delete _ (is_vote_of p u) t.poll_votes h.match) (offered, tt),
    )

offered_or_none :
    (p o n : ℕ) (t : Tables)
    → count (is_option_of o p) t.poll_options ≡ n
    → (n == 0) ≡ false
    → exists (is_option_of o p) t.poll_options ≡ true
offered_or_none p o n t e k = elim (Bool-cases (exists (is_option_of o p) t.poll_options)) [
  | inl there ↦ there
  | inr gone ↦ let z = count-zero (is_option_of o p) t.poll_options gone in absurd (ground arith)
]

-- the rest of `vote_poll` after the options were counted
abbrev counted : ℕ → ℕ → String → ℕ → Db (Unit {0})
counted p o u n =
    if n == 0
    then raise (SqlError.refusal "Option not found")
    else checked (λ b t. references b (exists (is_poll p) t.polls)) (with_vote p u o)

vote_counted :
    (p o n : ℕ) (u : String) (c : Conn)
    → IsConsistent c.tables
    → count (is_option_of o p) c.tables.poll_options ≡ n
    → IsConsistent (counted p o u n c).1.tables
vote_counted p o n u c h e = elim (Bool-cases (n == 0)) [
  | inl zero ↦ rw zero h
  | inr some_there ↦
      rw some_there
        ((Preserves-checked
            {P = λ t. IsConsistent t × (exists (is_option_of o p) t.poll_options ≡ true)}
            (λ b t. references b (exists (is_poll p) t.polls)) (with_vote p u o)
            (λ b t k free. (with_vote-IsConsistent p o u t k.1 k.0, k.1))).at
          c (h, offered_or_none p o n c.tables e some_there)).0
]

pub vote_poll-IsConsistent : (p : ℕ) (u : String) (o : ℕ) → Preserves IsConsistent (vote_poll p u o)
unfolding vote_poll
vote_poll-IsConsistent p u o = Preserves-prepare _ (
    Preserves-bind _ _ (Preserves-or_else false _ (Preserves-query (is_open p))) λ active.
      Preserves-if active _ _
        (Preserves-query_bind (λ t. count (is_option_of o p) t.poll_options) (counted p o u)
          λ n c h e. vote_counted p o n u c h e)
        (Preserves-raise (SqlError.refusal "Poll is closed")))

pub close_poll-IsConsistent : (p : ℕ) (u : String) → Preserves IsConsistent (close_poll p u)
unfolding close_poll
close_poll-IsConsistent p u = Preserves-prepare _ (
    Preserves-bind _ _ (Preserves-or_else {A = Option PollRow} none _ (Preserves-query _))
      λ creator.
        elim creator
          as (λ (o : Option PollRow). Preserves IsConsistent (elim o [
            | none ↦ pure false
            | some row ↦
                if row.creator == u
                then (do
                  execute (λ t. record t {
                    polls = update (is_poll p) (λ (p : PollRow). record p { active = 0 }) t.polls;
                  })
                  pure true)
                else pure false
          ])) [
            | none ↦ Preserves-pure false
            | some row ↦
                Preserves-if (row.creator == u) _ _
                  (Preserves-bind _ _
                    (Preserves-execute _ λ t h. assumption (
                      IsNumbered-update (λ (r : PollRow). r.poll_id) t.poll_seq (is_poll p)
                        (λ (p : PollRow). record p { active = 0 }) t.polls (λ x. refl) h.polls))
                    λ _. Preserves-pure true)
                  (Preserves-pure false)
          ])

pub create_post-IsConsistent :
    (ts : ℕ) (u content : String) (target : Option String)
    → Preserves IsConsistent (create_post ts u content target)
unfolding create_post
create_post-IsConsistent ts u content target = Preserves-change _ λ t h. assumption (
    IsNumbered-append (λ (r : PostRow). r.post_id) t.post_seq t.timeline_posts
      (record {
        post_id = t.post_seq + 1;
        user_id = u;
        target_user_id = target;
        content = content;
        created_at = ts;
      })
      refl h.posts)

pub delete_post-IsConsistent : (i : ℕ) (u : String) → Preserves IsConsistent (delete_post i u)
unfolding delete_post
delete_post-IsConsistent i u =
    Preserves-bind _ _
      (Preserves-execute _ λ t h. assumption (
        IsNumbered-delete (λ (r : CommentRow). r.comment_id) t.comment_seq (is_comment_on i)
          t.timeline_comments h.comments))
      λ _.
        Preserves-bind _ _
          (Preserves-change _ λ t h. assumption (
            IsNumbered-delete (λ (r : PostRow). r.post_id) t.post_seq (is_post_of i u)
              t.timeline_posts h.posts))
          λ affected. Preserves-pure _

pub add_comment-IsConsistent :
    (ts i : ℕ) (u content : String) → Preserves IsConsistent (add_comment ts i u content)
unfolding add_comment
add_comment-IsConsistent ts i u content =
    Preserves-bind _ _
      (Preserves-checked _ _ λ b t h free. assumption (
        IsNumbered-append (λ (r : CommentRow). r.comment_id) t.comment_seq t.timeline_comments
          (record {
            comment_id = t.comment_seq + 1;
            post_id = i;
            user_id = u;
            content = content;
            created_at = ts;
          })
          refl h.comments))
      λ _. record { at = λ c h. h }
