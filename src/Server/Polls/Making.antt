-- ===== src/Server/Polls/Making.antt =====
-- How a poll is made: its row, then a row for each option.
use tintin.Prelude.{
  ℕ, ◌+◌, ◌≡◌, refl, ap, sym, ◌∙◌, Bool, true, false, not, String, List, [], ◌∷◌, ◌++◌, map, Option,
  none, some, ok, pure, >>=-ok, arith, ◌==◌, text_eq, number_eq, beq_refl,
}
use mathlib.Core.List.{append_assoc, append-nil, map-append}
use tintin.Prelude.Rows.{exists, find, select}
use tintin.Prelude.Rows.Laws.{exists-append, find-append, find-none, select-append}
use tintin.Prelude.Rows.Numbered.{IsNumbered, exists-new}
use tintin.Server.Db.{Tables, PollRow, OptionRow, reliable, references, checked}
use tintin.Server.Db.Keep.{checked-reliable}
use tintin.Server.Polls.{is_poll, is_open, with_poll, with_option, insert_options, create_poll}

-- the options of a poll, in the order of their rows
unfoldable pub offered : ℕ → Tables → List String
offered p t =
    map (λ (o : OptionRow). o.option_text)
      (select (λ (o : OptionRow). o.poll_id == p) t.poll_options)

offered-with_option :
    (p : ℕ) (text : String) (t : Tables)
    → offered p (with_option p text t) ≡ offered p t ++ text ∷ []
unfolding offered select
offered-with_option p text t = rw select-append (rw (beq_refl p) (map-append _ _ _))

references_found : (b : Bool) (found : Bool) → found ≡ true → references b found ≡ none
references_found true found e = rw e refl
references_found false found e = refl

insert_options_run :
    (p : ℕ) (opts : List String) (b : Bool) (t : Tables)
    → exists (is_poll p) t.polls ≡ true
    → (t' : Tables) × (insert_options p opts (reliable b t) ≡ (ok tt, reliable b t'))
      × (offered p t' ≡ offered p t ++ opts)
      × (t'.polls ≡ t.polls)
unfolding insert_options
insert_options_run p [] b t there = (t, refl, sym (append-nil _), refl)
insert_options_run p (opt ∷ rest) b t there =
    let (t', runs, options, polls) = insert_options_run p rest b (with_option p opt t) there in
    (
      t',
      >>=-ok (checked (λ b t. references b (exists (is_poll p) t.polls)) (with_option p opt))
            (λ _. insert_options p rest) {s = reliable b t}
            (checked-reliable (λ b t. references b (exists (is_poll p) t.polls)) (with_option p opt)
              b t (references_found b _ there))
          ∙ runs,
      options ∙ ap (λ l. l ++ rest) (offered-with_option p opt t) ∙ append_assoc _ (opt ∷ []) rest,
      polls,
    )

new_poll :
    (now : ℕ) (creator question : String) (t : Tables)
    → exists (is_poll (t.poll_seq + 1)) (with_poll now creator question t).polls ≡ true
unfolding exists
new_poll now creator question t = rw exists-append (ground arith)

new_poll-is_open :
    (now : ℕ) (creator question : String) (t : Tables)
    → IsNumbered (λ (r : PollRow). r.poll_id) t.poll_seq t.polls
    → is_open (t.poll_seq + 1) (with_poll now creator question t) ≡ true
new_poll-is_open now creator question t h =
    let absent =
      exists-new (λ (r : PollRow). r.poll_id) t.poll_seq (t.poll_seq + 1) t.polls (omega arith) h in
    let row : PollRow = record {
      poll_id = t.poll_seq + 1;
      creator = creator;
      question = question;
      active = 1;
      created_at = now;
    } in
    let found : find (is_poll (t.poll_seq + 1)) (t.polls ++ row ∷ []) ≡ some row =
      find-append (is_poll (t.poll_seq + 1)) t.polls row
      ∙ rw (find-none (is_poll (t.poll_seq + 1)) t.polls absent)
          (rw (beq_refl (t.poll_seq + 1)) refl) in
    ap (λ (o : Option PollRow). elim o [ none ↦ false | some r ↦ not (r.active == 0) ]) found

-- Where the numbers of the polls grow along their table and no statement fails, a new poll has the
-- next number, is open, and offers the options in their order behind any that the table held under
-- its number.
pub create_poll_lem :
    (now : ℕ) (creator question : String) (options : List String) (b : Bool) (t : Tables)
    → IsNumbered (λ (r : PollRow). r.poll_id) t.poll_seq t.polls
    → (t' : Tables) × (create_poll now creator question options (reliable b t)
        ≡ (ok (t.poll_seq + 1), reliable b t'))
      × (is_open (t.poll_seq + 1) t' ≡ true)
      × (offered (t.poll_seq + 1) t' ≡ offered (t.poll_seq + 1) t ++ options)
unfolding create_poll offered
create_poll_lem now creator question options b t numbered =
    let made : Tables = with_poll now creator question t in
    let p = t.poll_seq + 1 in
    let (t', runs, opts, polls) =
      insert_options_run p options b made (new_poll now creator question t) in
    (
      t',
      >>=-ok (insert_options p options) (λ _. pure p) {s = reliable b made} runs,
      ap (λ rows. is_open p (record made { polls = rows })) polls
          ∙ new_poll-is_open now creator question t numbered,
      opts,
    )
