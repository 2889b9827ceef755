-- ===== src/Server/Groups/Members.antt =====
-- Who is in a group, and with which role.
use tintin.Prelude.{
  ◌≡◌, refl, ap, ◌∙◌, Bool, true, false, ◌&&◌, String, List, [], ◌∷◌, Option, none, some, ok, err,
  arith, if◌then◌else◌, ◌==◌, text_eq, Bool-cases, inl, inr,
}
use mathlib.Core.Path.{subst₂}
use text.Mathlib.TextEquality.{eq_iff}
use tintin.Prelude.Rows.{delete, exists, find}
use tintin.Prelude.Rows.Laws.{find-append, find-some}
use tintin.Server.Db.{Tables, MemberRow, foreign_key_violation, reliable, references}
use tintin.Server.Groups.{is_group, is_member, with_member, add_group_member, remove_group_member}

abbrev role : Option MemberRow → Option String
role none = none
role (some row) = some row.role

-- the role of a user in a group, if they are in it
unfoldable pub role_of : String → String → Tables → Option String
role_of group_id user_id t = role (find (is_member group_id user_id) t.group_members)

abbrev pub or_new : Option String → Bool → String → Option String
or_new (some r) new default = some r
or_new none new default = if new then some default else none

pub role_of-with_member :
    (g u g' u' r : String) (t : Tables)
    → role_of g' u' (with_member g u r t) ≡ or_new (role_of g' u' t) (g == g' && u == u') r
unfolding role_of
role_of-with_member g u g' u' r t = rw find-append (ground arith)

role_of_present :
    (g u : String) (t : Tables)
    → exists (is_member g u) t.group_members ≡ true
    → (r : String) × (role_of g u t ≡ some r)
unfolding role_of
role_of_present g u t h =
    let (row, found, _) = find-some (is_member g u) t.group_members h in (row.role, rw found)

or_new-false : (o : Option String) (r : String) → o ≡ or_new o false r
or_new-false none r = refl
or_new-false (some x) r = refl

role_kept :
    (g u g' u' : String) (t : Tables)
    → exists (is_member g u) t.group_members ≡ true
    → role_of g' u' t ≡ or_new (role_of g' u' t) (g == g' && u == u') "member"
role_kept g u g' u' t there =
    let (r, has) = role_of_present g u t there in
    elim (Bool-cases (g == g' && u == u')) [
      | inr other ↦ rw other (or_new-false (role_of g' u' t) "member")
      | inl same ↦
          let p : g ≡ g' = (eq_iff g g').0 (ground arith) in
          let q : u ≡ u' = (eq_iff u u').0 (ground arith) in
          subst₂ (λ x y. role_of x y t ≡ or_new (role_of x y t) (g == x && u == y) "member") p q
            (rw has refl)
    ]

-- Where the group exists or foreign keys are not enforced, and no statement fails, adding a member
-- returns. Each user keeps the role that they had in any group, and the one added, if not in the
-- group before, is in it as "member".
pub role_of-add_group_member :
    (g u g' u' : String) (b : Bool) (t : Tables)
    → references b (exists (is_group g) t.groups) ≡ none
    → (t' : Tables) × (add_group_member g u (reliable b t) ≡ (ok tt, reliable b t'))
      × (role_of g' u' t' ≡ or_new (role_of g' u' t) (g == g' && u == u') "member")
unfolding add_group_member
role_of-add_group_member g u g' u' b t found =
    elim (Bool-cases (exists (is_member g u) t.group_members)) [
      | inl there ↦ (t, rw there (rw there), role_kept g u g' u' t there)
      | inr new ↦ (
        with_member g u "member" t,
        rw new (rw found (rw new)),
        role_of-with_member g u g' u' "member" t,
      )
    ]

-- A member cannot be added to a group that does not exist, where foreign keys are enforced and the
-- user is not in it already: the call fails and changes nothing.
pub add_to_missing_group :
    (g u : String) (t : Tables)
    → exists (is_group g) t.groups ≡ false
    → exists (is_member g u) t.group_members ≡ false
    → add_group_member g u (reliable true t) ≡ (err foreign_key_violation, reliable true t)
unfolding add_group_member
add_to_missing_group g u t missing absent = rw absent (rw missing)

find-delete_member :
    (g u g' u' : String) (rows : List MemberRow)
    → find (is_member g' u') (delete (is_member g u) rows)
      ≡ (if g == g' && u == u' then none else find (is_member g' u') rows)
unfolding find delete
find-delete_member g u g' u' [] = ground arith
find-delete_member g u g' u' (x ∷ xs) = ground (
  arith,
  find-delete_member g u g' u' xs,
  eq_iff x.group_id g,
  eq_iff x.group_id g',
  eq_iff g g',
  eq_iff x.user_id u,
  eq_iff x.user_id u',
  eq_iff u u',
)

-- Where no statement fails, after a user is removed from a group they are not in it, and all
-- other roles are as before.
pub role_of-remove_group_member :
    (g u g' u' : String) (b : Bool) (t : Tables)
    → (t' : Tables) × (remove_group_member g u (reliable b t) ≡ (ok tt, reliable b t'))
      × (role_of g' u' t' ≡ (if g == g' && u == u' then none else role_of g' u' t))
unfolding remove_group_member role_of
role_of-remove_group_member g u g' u' b t = (
  record t { group_members = delete (is_member g u) t.group_members },
  refl,
  ap role (find-delete_member g u g' u' t.group_members)
      ∙ elim (Bool-cases (g == g' && u == u')) [ inl same ↦ rw same | inr other ↦ rw other ],
)
