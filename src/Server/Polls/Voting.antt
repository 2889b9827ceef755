-- ===== src/Server/Polls/Voting.antt =====
-- What a vote and the closing of a poll do, on each branch.
use tintin.Prelude.{
  Option-cases, ℕ, ◌≡◌, refl, ◌∙◌, Bool, true, false, not, ◌&&◌, String, List, [], ◌∷◌, Option,
  none, some, ok, err, arith, if◌then◌else◌, ◌==◌, text_eq, number_eq, Bool-cases, inl, inr,
}
use text.Mathlib.TextEquality.{eq_iff}
use tintin.Prelude.Rows.{delete, update, exists, count, find}
use tintin.Prelude.Rows.Laws.{find-append, find-none, count-zero}
use tintin.Server.Db.{Tables, PollRow, VoteRow, refusal, reliable, references}
use tintin.Server.Db.Keep.{checked-reliable}
use tintin.Server.Polls.{
  is_poll, is_vote_of, is_option_of, with_vote, is_open, vote_poll, close_poll,
}

abbrev chosen : Option VoteRow → Option ℕ
chosen none = none
chosen (some v) = some v.option_id

-- the option that a user has voted for in a poll
unfoldable pub vote_of : ℕ → String → Tables → Option ℕ
vote_of poll_id user_id t = chosen (find (is_vote_of poll_id user_id) t.poll_votes)

find-delete_vote :
    (p q : ℕ) (u w : String) (rows : List VoteRow)
    → find (is_vote_of q w) (delete (is_vote_of p u) rows)
      ≡ (if p == q && u == w then none else find (is_vote_of q w) rows)
unfolding find delete
find-delete_vote p q u w [] = ground arith
find-delete_vote p q u w (x ∷ xs) =
    ground (arith, find-delete_vote p q u w xs, eq_iff x.user_id u, eq_iff x.user_id w, eq_iff u w)

vote_of-with_vote :
    (p o q : ℕ) (u w : String) (t : Tables)
    → vote_of q w (with_vote p u o t) ≡ (if p == q && u == w then some o else vote_of q w t)
unfolding vote_of
vote_of-with_vote p o q u w t = rw find-append (
    rw find-delete_vote (elim (Bool-cases (p == q && u == w)) [
      | inl same ↦ rw same (rw same refl)
      | inr other ↦ rw other (kept other (find (is_vote_of q w) t.poll_votes))
    ]))
  where
    kept :
        (p == q && u == w) ≡ false
        → (f : Option VoteRow)
        → chosen (elim f [
          | some x ↦ some x
          | none ↦
              if p == q && u == w
              then some (record { poll_id = p; user_id = u; option_id = o })
              else none
        ])
          ≡ chosen f
    kept other none = rw other
    kept other (some v) = refl

open_found : (p : ℕ) (t : Tables) → is_open p t ≡ true → exists (is_poll p) t.polls ≡ true
open_found p t h = go t.polls h
  where
    go :
        (rows : List PollRow)
        → elim (find (is_poll p) rows) [ none ↦ false | some row ↦ not (row.active == 0) ] ≡ true
        → exists (is_poll p) rows ≡ true
    go rows h = elim (Bool-cases (exists (is_poll p) rows)) [
      | inl found ↦ found
      | inr missing ↦ cc (rw (find-none (is_poll p) rows missing) at h)
    ]

count-nonzero :
    {A : Type 0} (p : A → Bool) (xs : List A) → exists p xs ≡ true → (count p xs == 0) ≡ false
unfolding count exists
count-nonzero p [] h = cc
count-nonzero p (x ∷ xs) h = ground (arith, count-nonzero p xs)

references_found : (b : Bool) → references b true ≡ none
references_found true = refl
references_found false = refl

-- Where no statement fails, a vote in an open poll for one of its options is recorded in place of
-- any vote of the user in that poll, and every other vote stays.
pub vote_of-vote_poll :
    (p o q : ℕ) (u w : String) (b : Bool) (t : Tables)
    → is_open p t ≡ true
    → exists (is_option_of o p) t.poll_options ≡ true
    → (t' : Tables) × (vote_poll p u o (reliable b t) ≡ (ok tt, reliable b t'))
      × (vote_of q w t' ≡ (if p == q && u == w then some o else vote_of q w t))
unfolding vote_poll vote_of
vote_of-vote_poll p o q u w b t opened offered = (
  with_vote p u o t,
  rw opened (
      rw (count-nonzero (is_option_of o p) t.poll_options offered) (
        checked-reliable (λ b' t'. references b' (exists (is_poll p) t'.polls)) (with_vote p u o) b
          t (rw (open_found p t opened) (references_found b)))),
  vote_of-with_vote p o q u w t,
)

-- Where no statement fails, a vote in a poll that is closed or does not exist, or for an option
-- that the poll does not have, is refused in these words, and changes nothing.
pub vote_refused :
    (p o : ℕ) (u : String) (b : Bool) (t : Tables)
    → (is_open p t && exists (is_option_of o p) t.poll_options) ≡ false
    → vote_poll p u o (reliable b t)
      ≡ (err (refusal (if is_open p t then "Option not found" else "Poll is closed")), reliable b t)
unfolding vote_poll
vote_refused p o u b t h = elim (Bool-cases (is_open p t)) [
  | inr shut ↦ rw shut refl
  | inl opened ↦ rw opened (rw (count-zero (is_option_of o p) t.poll_options (rw opened at h)) refl)
]

-- whether the poll exists and the user created it
unfoldable pub is_creator : ℕ → String → Tables → Bool
is_creator p u t = elim (find (is_poll p) t.polls) [ none ↦ false | some row ↦ row.creator == u ]

abbrev closed : ℕ → Tables → Tables
closed p t = record t {
  polls = update (is_poll p) (λ (row : PollRow). record row { active = 0 }) t.polls;
}

is_open-closed :
    (p q : ℕ) (rows : List PollRow)
    → elim (find
        (is_poll q)
        (update (is_poll p) (λ (row : PollRow). record row { active = 0 }) rows)) [
          | none ↦ false
          | some row ↦ not (row.active == 0)
        ]
      ≡ (elim (find (is_poll q) rows) [ none ↦ false | some row ↦ not (row.active == 0) ]
          && not (p == q))
unfolding find update
is_open-closed p q [] = ground arith
is_open-closed p q (x ∷ xs) = ground (arith, is_open-closed p q xs)

no_creator :
    (p : ℕ) (u : String) (t : Tables) → find (is_poll p) t.polls ≡ none → is_creator p u t ≡ false
unfolding is_creator
no_creator p u t h = rw (h, is_creator)

creator_found :
    (p : ℕ) (u : String) (t : Tables) (row : PollRow)
    → find (is_poll p) t.polls ≡ some row
    → is_creator p u t ≡ (row.creator == u)
unfolding is_creator
creator_found p u t row h = rw (h, is_creator)

-- a row that is closed, or as it was
abbrev pub closed_if : Bool → Option PollRow → Option PollRow
closed_if b none = none
closed_if b (some row) = some (if b then record row { active = 0 } else row)

find-closed :
    (p q : ℕ) (rows : List PollRow)
    → find (is_poll q) (update (is_poll p) (λ (row : PollRow). record row { active = 0 }) rows)
      ≡ closed_if (p == q) (find (is_poll q) rows)
unfolding find update
find-closed p q [] = refl
find-closed p q (x ∷ xs) = elim (Bool-cases (x.poll_id == p)) [
  | inl here ↦ elim (Bool-cases (x.poll_id == q)) [
    | inl found ↦ let same : (p == q) ≡ true = ground arith in rw here (rw found (rw same refl))
    | inr other ↦ rw here (rw other (find-closed p q xs))
  ]
  | inr elsewhere ↦ elim (Bool-cases (x.poll_id == q)) [
    | inl found ↦
        let differ : (p == q) ≡ false = ground arith in rw elsewhere (rw found (rw differ refl))
    | inr other ↦ rw elsewhere (rw other (find-closed p q xs))
  ]
]

-- What `close_poll` answers and does where no statement fails. The answer says whether the user
-- created the poll. If so, the row of that poll is marked as closed, every other poll's row is as it
-- was, and so are all other tables; and a poll is open that was open, unless it is this one. If not,
-- nothing changes at all.
pub close_poll_lem :
    (p q : ℕ) (u : String) (b : Bool) (t : Tables)
    → (t' : Tables) × (close_poll p u (reliable b t) ≡ (ok (is_creator p u t), reliable b t'))
      × (if is_creator p u t
          then (is_open q t' ≡ (is_open q t && not (p == q)))
            × (find (is_poll q) t'.polls ≡ closed_if (p == q) (find (is_poll q) t.polls))
            × (record t' { polls = t.polls } ≡ t)
          else t' ≡ t)
unfolding close_poll
close_poll_lem p q u b t = elim (Option-cases (find (is_poll p) t.polls)) [
  | inl missing ↦ let e = no_creator p u t missing in (t, rw missing (rw e refl), rw e refl)
  | inr (row, found) ↦
      let e = creator_found p u t row found in
      elim (Bool-cases (row.creator == u)) [
        | inl mine ↦ (
          closed p t,
          rw found (rw mine (rw (e ∙ mine) refl)),
          rw (e ∙ mine) (is_open-closed p q t.polls, find-closed p q t.polls, refl),
        )
        | inr other ↦ (t, rw found (rw other (rw (e ∙ other) refl)), rw (e ∙ other) refl)
      ]
]
