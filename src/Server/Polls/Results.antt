-- ===== src/Server/Polls/Results.antt =====
-- The results of a poll, of store.rs.
use tintin.Prelude.{
  ◌&&◌, Every-all, Every-weaken, Every-map, sym, ℕ, ◌≡◌, refl, ◌∙◌, Bool, true, false, List, [],
  ◌∷◌, map, arith, ◌==◌, text_eq, number_eq, not, String, some, ok, Bool-cases, inl, inr, Every,
}
use mathlib.Core.Path.{subst}
use tintin.Prelude.Rows.{exists, count, find}
use tintin.Server.Db.{Tables, PollRow, OptionRow, VoteRow, reliable}
use tintin.Server.Polls.{
  is_poll, is_open, is_option_of, OptionResult, PollResults, tally, poll_results,
}
use tintin.Server.Polls.Ballots.{
  OptionsAreNumbered, VotesMatch, options_of, sum_by, one_if, votes_for, one_option, in_order,
  tally_total,
}

map-map_with :
    {A B C : Type 0} (f : B → C) (g : A → B) (xs : List A)
    → map f (map g xs) ≡ map (λ x. f (g x)) xs
map-map_with f g [] = refl
map-map_with f g (x ∷ xs) = rw (map-map_with f g xs)

abbrev pub shown : OptionResult → ℕ × String
shown r = (r.option_id, r.option_text)

tally_options :
    (p : ℕ) (t : Tables)
    → OptionsAreNumbered t
    → map shown (tally p t) ≡ map (λ (o : OptionRow). (o.option_id, o.option_text)) (options_of p t)
unfolding tally
tally_options p t numbered = rw (in_order p t numbered) (map-map_with shown _ (options_of p t))

tally_lem :
    (p : ℕ) (t : Tables)
    → OptionsAreNumbered t
    → tally p t
      ≡ map
          (λ (o : OptionRow). record {
            option_id = o.option_id;
            option_text = o.option_text;
            votes = votes_for t.poll_votes o;
          })
          (options_of p t)
unfolding tally
tally_lem p t numbered = rw (in_order p t numbered) refl

-- Where there is no vote for one of the options, each has another number.
all_other :
    (n : ℕ) (os : List OptionRow)
    → sum_by (λ (o : OptionRow). one_if (o.option_id == n)) os ≡ 0
    → Every (λ (o : OptionRow). (o.option_id == n) ≡ false) os
unfolding sum_by
all_other n [] h = tt
all_other n (o ∷ os) h = (ground arith, all_other n os (omega (arith, h)))

-- a vote in a poll for an option
abbrev pub is_ballot : ℕ → ℕ → VoteRow → Bool
is_ballot p n v = v.poll_id == p && v.option_id == n

-- An option of the poll has a vote's number exactly where it is a vote in the poll for this option.
ballot_found :
    (p : ℕ) (t : Tables) (v : VoteRow)
    → OptionsAreNumbered t
    → exists (is_option_of v.option_id v.poll_id) t.poll_options ≡ true
    → Every
        (λ (o : OptionRow). (o.option_id == v.option_id) ≡ is_ballot p o.option_id v)
        (options_of p t)
ballot_found p t v numbered match = elim (Bool-cases (v.poll_id == p)) [
  | inl same ↦ Every-all (options_of p t) (λ o. ground (arith, same))
  | inr other ↦
      let none_of = all_other v.option_id (options_of p t) (
        one_option t.option_seq v.option_id p v.poll_id t.poll_options numbered match
        ∙ rw other refl) in
      Every-weaken (options_of p t) (λ o differs. ground (arith, other, differs)) none_of
]

counted_next :
    (p : ℕ) (v : VoteRow) (vs : List VoteRow) (os : List OptionRow)
    → Every (λ (o : OptionRow). (o.option_id == v.option_id) ≡ is_ballot p o.option_id v) os
    → Every (λ (o : OptionRow). votes_for vs o ≡ count (is_ballot p o.option_id) vs) os
    → Every (λ (o : OptionRow). votes_for (v ∷ vs) o ≡ count (is_ballot p o.option_id) (v ∷ vs)) os
unfolding count
counted_next p v vs [] found counted = tt
counted_next p v vs (o ∷ os) found counted =
    (rw found.0 (rw counted.0 refl), counted_next p v vs os found.1 counted.1)

counted_ballots :
    (p : ℕ) (t : Tables) (vs : List VoteRow)
    → OptionsAreNumbered t
    → Every (λ (v : VoteRow). exists (is_option_of v.option_id v.poll_id) t.poll_options ≡ true) vs
    → Every
        (λ (o : OptionRow). votes_for vs o ≡ count (is_ballot p o.option_id) vs)
        (options_of p t)
unfolding count
counted_ballots p t [] numbered match = Every-all (options_of p t) (λ o. refl)
counted_ballots p t (v ∷ vs) numbered match =
    counted_next p v vs (options_of p t) (ballot_found p t v numbered match.0)
      (counted_ballots p t vs numbered match.1)

-- Where no statement fails, the poll is there, the options are numbered in the order of their table
-- and each vote is for an option of its poll, `poll_results` answers with the poll's question and
-- creator, whether it is open, and its options in their order; with each option come the votes
-- cast in this poll for it, and together they are all the votes cast in the poll. The tables are as
-- before.
pub poll_results_lem :
    (p : ℕ) (b : Bool) (t : Tables) (row : PollRow)
    → OptionsAreNumbered t
    → VotesMatch t
    → find (is_poll p) t.polls ≡ some row
    → (res : PollResults) × (poll_results p (reliable b t) ≡ (ok (some res), reliable b t))
      × (res.poll_id ≡ p)
      × (res.question ≡ row.question)
      × (res.creator ≡ row.creator)
      × (res.active ≡ is_open p t)
      × (map shown res.options
          ≡ map (λ (o : OptionRow). (o.option_id, o.option_text)) (options_of p t))
      × Every
          (λ (r : OptionResult). r.votes ≡ count (is_ballot p r.option_id) t.poll_votes)
          res.options
      × (sum_by (λ (r : OptionResult). r.votes) res.options
          ≡ count (λ (v : VoteRow). v.poll_id == p) t.poll_votes)
unfolding poll_results
poll_results_lem p b t row numbered match found = (
  record {
    poll_id = p;
    question = row.question;
    creator = row.creator;
    active = not (row.active == 0);
    options = tally p t;
  },
  rw found refl,
  refl,
  refl,
  refl,
  rw (found, is_open) refl,
  tally_options p t numbered,
  subst (Every (λ (r : OptionResult). r.votes ≡ count (is_ballot p r.option_id) t.poll_votes))
      (sym (tally_lem p t numbered))
      (Every-map _ _ (options_of p t) (counted_ballots p t t.poll_votes numbered match)),
  tally_total p t numbered match,
)
