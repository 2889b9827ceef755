-- ===== src/Server/Statuses/Expiry.antt =====
-- Which stories are shown, and for how long.
use tintin.Prelude.{
  Bool-cases, inl, inr, ℕ, ◌+◌, ◌^◌, ◌<◌, ◌≡◌, refl, ◌∙◌, ap, Bool, true, String, List, [], ◌∷◌,
  ◌++◌, ok, arith, ◌==◌, text_eq, ◌↔◌, if◌then◌else◌,
}
use mathlib.Core.List.{append-nil}
use text.Mathlib.TextEquality.{eq_iff}
use tintin.Prelude.Rows.{select, delete}
use tintin.Prelude.Rows.Laws.{select-append}
use tintin.Server.Db.{Tables, StatusRow, reliable}
use tintin.Server.Statuses.{is_status_of, is_active, set_status, clear_status}

-- A story is active exactly while less than 24 hours have passed since its time, for every time
-- that a clock can show below 2^63 seconds.
pub is_active_iff :
    (now : ℕ) (row : StatusRow)
    → now < 2 ^ 63
    → (is_active now row ≡ true) ↔ (now < row.created_at + 86400)
unfolding is_active
is_active_iff now row h = (λ e. ground arith, λ l. ground arith)

-- the story of a user
pub story_of : String → Tables → List StatusRow
story_of u t = select (is_status_of u) t.statuses

select-delete_status :
    (u v : String) (rows : List StatusRow)
    → select (is_status_of v) (delete (is_status_of u) rows)
      ≡ (if u == v then [] else select (is_status_of v) rows)
unfolding select delete
select-delete_status u v [] = ground arith
select-delete_status u v (x ∷ xs) =
    ground (arith, select-delete_status u v xs, eq_iff x.user_id u, eq_iff x.user_id v, eq_iff u v)

-- Where no statement fails, setting a story returns its time and replaces the story of the user;
-- clearing it leaves the user with none. Both leave every other user's story as it is.
pub story_of-set_clear :
    (now : ℕ) (u v content : String) (b : Bool) (t : Tables)
    → (t' : Tables) × (set_status now u content (reliable b t) ≡ (ok now, reliable b t'))
      × (story_of v t' ≡ (
          if u == v
          then record { user_id = u; content = content; created_at = now } ∷ []
          else story_of v t))
      × (t'' : Tables) × (clear_status u (reliable b t) ≡ (ok tt, reliable b t''))
      × (story_of v t'' ≡ (if u == v then [] else story_of v t))
unfolding set_status clear_status story_of select
story_of-set_clear now u v content b t =
    let new : StatusRow = record { user_id = u; content = content; created_at = now } in
    let kept = delete (is_status_of u) t.statuses in
    (
      record t { statuses = kept ++ new ∷ [] },
      refl,
      select-append (is_status_of v) kept (new ∷ [])
          ∙ ap (λ l. l ++ select (is_status_of v) (new ∷ [])) (select-delete_status u v t.statuses)
          ∙ elim (Bool-cases (u == v)) [
            | inl same ↦ rw same refl
            | inr other ↦ rw other (append-nil _)
          ],
      record t { statuses = kept },
      refl,
      select-delete_status u v t.statuses,
    )
