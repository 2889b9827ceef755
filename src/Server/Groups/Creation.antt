-- ===== src/Server/Groups/Creation.antt =====
-- The creation of a group in store.rs: two statements, with nothing that joins them.
use tintin.Prelude.{
  pure, ◌>>◌, >>=-ok, ℕ, ◌≡◌, refl, ap, ◌∙◌, Bool, true, false, ◌&&◌, ◌||◌, String, List, ◌∷◌,
  Option, none, some, ok, err, arith, ◌==◌, text_eq, beq_refl,
}
use tintin.Prelude.Rows.{exists}
use tintin.Prelude.Rows.Laws.{exists-append}
use tintin.Server.Db.{Tables, SqlError, reliable, references}
use tintin.Server.Db.Keep.{checked-reliable, checked-next}
use tintin.Server.Groups.{
  insert_group, insert_admin, group_check, admin_check, is_group, is_member, with_member,
  with_group, create_group,
}
use tintin.Server.Groups.Hex.{generate_group_id}
use tintin.Server.Groups.Members.{role_of, or_new, role_of-with_member}

-- a group row is found after its INSERT
exists-with_group :
    (g name creator g' : String) (t : Tables)
    → exists (is_group g') (with_group g name creator t).groups
      ≡ (exists (is_group g') t.groups || g == g')
unfolding exists
exists-with_group g name creator g' t = rw exists-append (ground arith)

role_of-with_group :
    (g name creator g' u' : String) (t : Tables)
    → role_of g' u' (with_group g name creator t) ≡ role_of g' u' t
unfolding role_of
role_of-with_group g name creator g' u' t = refl

references_found : (b : Bool) → references b true ≡ none
references_found true = refl
references_found false = refl

module _ (millis rnd : ℕ) (name creator : String) (b : Bool) (t : Tables) where
  abbrev new_id : String
  new_id = generate_group_id millis rnd

  found_after : exists (is_group new_id) (with_group new_id name creator t).groups ≡ true
  found_after =
      exists-with_group new_id name creator new_id t
      ∙ rw (beq_refl {A = String} new_id) (or_true (exists (is_group new_id) t.groups))
    where
      or_true : (x : Bool) → (x || true) ≡ true
      or_true true = refl
      or_true false = refl

  -- Where the generated name is new to the groups and to their members, and no statement fails,
  -- the call returns the name; the group exists, its creator is in it as "admin", and every other
  -- role is as it was.
  pub create_group_lem :
      (g' u' : String)
      → exists (is_group (generate_group_id millis rnd)) t.groups ≡ false
      → exists (is_member (generate_group_id millis rnd) creator) t.group_members ≡ false
      → (t' : Tables) × (create_group millis rnd name creator (reliable b t)
          ≡ (ok (generate_group_id millis rnd), reliable b t'))
        × (exists (is_group (generate_group_id millis rnd)) t'.groups ≡ true)
        × (role_of g' u' t'
            ≡ or_new
                (role_of g' u' t)
                (generate_group_id millis rnd == g' && creator == u')
                "admin")
  unfolding create_group
  create_group_lem g' u' fresh absent = (
    with_member new_id creator "admin" (with_group new_id name creator t),
    >>=-ok (insert_group new_id name creator) (λ _. insert_admin new_id creator >> pure new_id)
          {s = reliable b t}
          (checked-reliable (group_check new_id) (with_group new_id name creator) b t (rw fresh))
        ∙ >>=-ok (insert_admin new_id creator) (λ _. pure new_id)
            {s = reliable b (with_group new_id name creator t)}
            (checked-reliable (admin_check new_id creator) (with_member new_id creator "admin") b
              (with_group new_id name creator t) (rw absent (rw found_after (references_found b)))),
    found_after,
    role_of-with_member new_id creator g' u' "admin" (with_group new_id name creator t)
        ∙ ap (λ o. or_new o (new_id == g' && creator == u') "admin")
            (role_of-with_group new_id name creator g' u' t),
  )

  -- Where the generated name is new and the second statement fails, the call returns the error
  -- and the group stays, without the creator or anyone else added to it.
  pub create_group_torn :
      (e : SqlError) (later : List (Option SqlError))
      → exists (is_group (generate_group_id millis rnd)) t.groups ≡ false
      → create_group millis rnd name creator
          (record { tables = t; faults = none ∷ some e ∷ later; enforces = b })
        ≡ (
          err e,
          record {
            tables = with_group (generate_group_id millis rnd) name creator t;
            faults = later;
            enforces = b;
          },
        )
  unfolding create_group
  create_group_torn e later fresh =
      >>=-ok (insert_group new_id name creator) (λ _. insert_admin new_id creator >> pure new_id)
        {s = record { tables = t; faults = none ∷ some e ∷ later; enforces = b }}
        (checked-next (group_check new_id) (with_group new_id name creator) b t (some e ∷ later)
          (rw fresh))
