-- ===== src/Server/Groups.antt =====
-- The groups of tintin-server/src/store.rs. The clock and the random number that name a group
-- are arguments.
pub mod Hex
pub mod Members
pub mod Creation
use tintin.Prelude.{
  ℕ, ◌≡◌, refl, Bool, true, false, ◌&&◌, String, List, [], ◌∷◌, ◌++◌, Option, none, some, map, pure,
  ◌>>=◌, ◌>>◌, ltb, if◌then◌else◌, ◌==◌, text_eq,
}
use mathlib.Core.List.{flat_map}
use tintin.Prelude.Rows.{select, delete, exists, count}
use tintin.Prelude.Rows.Order.{order_by}
use tintin.Server.Db.{
  Tables, GroupRow, MemberRow, Db, SqlError, query, execute, checked, references, primary_key,
  text_le,
}
use tintin.Server.Groups.Hex.{generate_group_id}

abbrev pub is_group : String → GroupRow → Bool
is_group group_id row = row.group_id == group_id

abbrev pub is_member : String → String → MemberRow → Bool
is_member group_id user_id row = row.group_id == group_id && row.user_id == user_id

abbrev pub with_member : String → String → String → Tables → Tables
with_member group_id user_id role t = record t {
  group_members =
      t.group_members ++ record { group_id = group_id; user_id = user_id; role = role } ∷ [];
}

abbrev pub with_group : String → String → String → Tables → Tables
with_group group_id name creator t = record t {
  groups = t.groups ++ record { group_id = group_id; name = name; creator = creator } ∷ [];
}

-- the first error of two
abbrev pub first_error : Option SqlError → Option SqlError → Option SqlError
first_error (some e) o = some e
first_error none o = o

-- the constraints on a new group, and on its first member
abbrev pub group_check : String → Bool → Tables → Option SqlError
group_check group_id b t = primary_key (exists (is_group group_id) t.groups)

abbrev pub admin_check : String → String → Bool → Tables → Option SqlError
admin_check group_id creator b t =
    first_error (primary_key (exists (is_member group_id creator) t.group_members))
      (references b (exists (is_group group_id) t.groups))

abbrev pub insert_group : String → String → String → Db (Unit {0})
insert_group group_id name creator =
    checked (group_check group_id) (with_group group_id name creator)

abbrev pub insert_admin : String → String → Db (Unit {0})
insert_admin group_id creator =
    checked (admin_check group_id creator) (with_member group_id creator "admin")

unfoldable pub create_group : ℕ → ℕ → String → String → Db String
create_group millis rnd name creator = do
  let group_id = generate_group_id millis rnd
  insert_group group_id name creator
  insert_admin group_id creator
  pure group_id

-- INSERT OR IGNORE: a row that is there stays, with its role.
unfoldable pub add_group_member : String → String → Db (Unit {0})
add_group_member group_id user_id =
    checked
      (λ b t.
        if exists (is_member group_id user_id) t.group_members
        then none
        else references b (exists (is_group group_id) t.groups))
      (λ t.
        if exists (is_member group_id user_id) t.group_members
        then t
        else with_member group_id user_id "member" t)

unfoldable pub remove_group_member : String → String → Db (Unit {0})
remove_group_member group_id user_id =
    execute (λ t. record t { group_members = delete (is_member group_id user_id) t.group_members })

pub record MyGroup : Type 0 where
  pub group_id : String
  pub name : String
  pub creator : String
  pub role : String

-- FROM groups JOIN group_members
unfoldable pub join_groups : String → List GroupRow → List MemberRow → List MyGroup
join_groups user_id groups members =
    flat_map
      (λ (g : GroupRow).
        map
          (λ (gm : MemberRow). record {
            group_id = g.group_id;
            name = g.name;
            creator = g.creator;
            role = gm.role;
          })
          (select (is_member g.group_id user_id) members))
      groups

unfoldable pub list_my_groups : String → Db (List MyGroup)
unfolding join_groups
list_my_groups user_id = query (λ t.
    order_by (λ (a b : MyGroup). text_le a.name b.name)
      (join_groups user_id t.groups t.group_members))

unfoldable pub list_group_members : String → Db (List String)
list_group_members group_id = query (λ t.
    map (λ (row : MemberRow). row.user_id)
      (order_by (λ (a b : MemberRow). text_le a.user_id b.user_id)
        (select (λ row. row.group_id == group_id) t.group_members)))

unfoldable pub group_exists : String → Db Bool
group_exists group_id = query (λ t. ltb 0 (count (is_group group_id) t.groups))
