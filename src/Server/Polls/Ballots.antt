-- ===== src/Server/Polls/Ballots.antt =====
-- The votes and the results of a poll of store.rs.
use tintin.Prelude.{
  ℕ, ◌+◌, ◌<◌, ◌≡◌, refl, ◌∙◌, Bool, true, false, List, [], ◌∷◌, map, arith, if◌then◌else◌, ◌==◌,
  text_eq, number_eq, Bool-cases, inl, inr, Every,
}
use mathlib.Core.Path.{subst}
use tintin.Prelude.Rows.{select, exists, count}
use tintin.Prelude.Rows.Order.{order_by, order_by_sorted}
use tintin.Prelude.Rows.Numbered.{id_le, IsNumbered, IsNumbered-select, IsNumbered-IsSorted}
use tintin.Server.Db.{Tables, OptionRow, VoteRow}
use tintin.Server.Polls.{is_option_of, OptionResult, tally}

-- The options are numbered in their order.
abbrev pub OptionsAreNumbered : Tables → Type 0
OptionsAreNumbered t = IsNumbered (λ (o : OptionRow). o.option_id) t.option_seq t.poll_options

-- the options of a poll
abbrev pub options_of : ℕ → Tables → List OptionRow
options_of p t = select (λ (o : OptionRow). o.poll_id == p) t.poll_options

-- Each vote is for an option of its poll.
abbrev pub VotesMatch : Tables → Type 0
VotesMatch t =
    Every (λ (v : VoteRow). exists (is_option_of v.option_id v.poll_id) t.poll_options ≡ true)
      t.poll_votes

unfoldable pub sum_by : {A : Type 0} → (A → ℕ) → List A → ℕ
sum_by f [] = 0
sum_by f (x ∷ xs) = f x + sum_by f xs

sum_by-map :
    {A B : Type 0} (f : B → ℕ) (g : A → B) (xs : List A)
    → sum_by f (map g xs) ≡ sum_by (λ x. f (g x)) xs
unfolding sum_by
sum_by-map f g [] = refl
sum_by-map f g (x ∷ xs) = rw (sum_by-map f g xs)

abbrev pub one_if : Bool → ℕ
one_if b = if b then 1 else 0

abbrev pub votes_for : List VoteRow → OptionRow → ℕ
votes_for vs o = count (λ (v : VoteRow). o.option_id == v.option_id) vs

sum_by-cons_vote :
    (v : VoteRow) (vs : List VoteRow) (os : List OptionRow)
    → sum_by (votes_for (v ∷ vs)) os
      ≡ sum_by (λ (o : OptionRow). one_if (o.option_id == v.option_id)) os
        + sum_by (votes_for vs) os
unfolding sum_by count
sum_by-cons_vote v vs [] = omega arith
sum_by-cons_vote v vs (o ∷ os) = omega (arith, sum_by-cons_vote v vs os)

sum_by-no_votes : (os : List OptionRow) → sum_by (votes_for []) os ≡ 0
unfolding sum_by count
sum_by-no_votes [] = refl
sum_by-no_votes (o ∷ os) = omega (arith, sum_by-no_votes os)

-- above a number no option has it
none_above :
    (n p q : ℕ) (os : List OptionRow)
    → Every (λ (o : OptionRow). n < o.option_id) os
    → (sum_by
          (λ (o : OptionRow). one_if (o.option_id == n))
          (select (λ (o : OptionRow). o.poll_id == p) os)
        ≡ 0)
      × (exists (is_option_of n q) os ≡ false)
unfolding sum_by select exists
none_above n p q [] h = (refl, refl)
none_above n p q (o ∷ os) h =
    let (zero_rest, absent) = none_above n p q os h.1 in (ground arith, ground arith)

-- Among the options of a poll, a vote's own is found once if the vote is in the poll.
pub one_option :
    (seq n p q : ℕ) (os : List OptionRow)
    → IsNumbered (λ (o : OptionRow). o.option_id) seq os
    → exists (is_option_of n q) os ≡ true
    → sum_by
        (λ (o : OptionRow). one_if (o.option_id == n))
        (select (λ (o : OptionRow). o.poll_id == p) os)
      ≡ one_if (q == p)
unfolding sum_by select exists
one_option seq n p q [] h e = cc
one_option seq n p q (o ∷ os) h e = elim (Bool-cases (o.option_id == n)) [
  | inl here ↦
      let same : o.option_id ≡ n = ground arith in
      let above =
        none_above n p q os (subst (λ m. Every (λ (x : OptionRow). m < x.option_id) os) same h.1) in
      ground (arith, above.0, above.1)
  | inr other ↦ ground (arith, one_option seq n p q os h.2)
]

count_votes :
    (p : ℕ) (t : Tables) (vs : List VoteRow)
    → OptionsAreNumbered t
    → Every (λ (v : VoteRow). exists (is_option_of v.option_id v.poll_id) t.poll_options ≡ true) vs
    → sum_by (votes_for vs) (select (λ (o : OptionRow). o.poll_id == p) t.poll_options)
      ≡ count (λ (v : VoteRow). v.poll_id == p) vs
unfolding count
count_votes p t [] numbered match = sum_by-no_votes _
count_votes p t (v ∷ vs) numbered match =
    sum_by-cons_vote v vs (select (λ (o : OptionRow). o.poll_id == p) t.poll_options)
    ∙ omega (
      arith,
      one_option t.option_seq v.option_id p v.poll_id t.poll_options numbered match.0,
      count_votes p t vs numbered match.1,
    )

pub in_order :
    (p : ℕ) (t : Tables)
    → OptionsAreNumbered t
    → order_by (id_le (λ (o : OptionRow). o.option_id)) (options_of p t) ≡ options_of p t
in_order p t numbered = order_by_sorted _ (options_of p t) (
    IsNumbered-IsSorted _ t.option_seq (options_of p t)
      (IsNumbered-select _ t.option_seq _ t.poll_options numbered))

pub tally_total :
    (p : ℕ) (t : Tables)
    → OptionsAreNumbered t
    → VotesMatch t
    → sum_by (λ (r : OptionResult). r.votes) (tally p t)
      ≡ count (λ (v : VoteRow). v.poll_id == p) t.poll_votes
unfolding tally
tally_total p t numbered match =
    rw (in_order p t numbered)
      (sum_by-map _ _ (options_of p t) ∙ count_votes p t t.poll_votes numbered match)
