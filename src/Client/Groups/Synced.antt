-- ===== src/Client/Groups/Synced.antt =====
-- What the client's caches of groups and channels hold after an answer of the relay, and after a
-- refusal.
use tintin.Prelude.{
  ◌≡◌, refl, ◌∙◌, ap, String, List, [], ◌∷◌, Option, none, some, Result, ok, err, continue, ◌==◌,
  text_eq, if◌then◌else◌, Bool-cases, inl, inr, ◌⊎◌,
}
use text.Mathlib.TextEquality.{eq_iff}
use tintin.Prelude.Maps.{HashMap, lookup, insert, lookup-insert_self, lookup-insert_other}
use tintin.Client.Wire.{unwrap_or}
use tintin.Client.State.{
  GroupInfo, Request, Response, ClientError, my_groups, Outside, Device, modify,
}
use tintin.Client.Sending.{request_ok}
use tintin.Client.Sending.Frame.{request_ok-Keeps}
use tintin.Client.Groups.{insert_all, with_groups, sync_groups}

abbrev pub or_else : Option GroupInfo → Option GroupInfo → Option GroupInfo
or_else none b = b
or_else (some a) b = some a

-- The last entry of an answer with a group's id.
abbrev pub last_of : String → List (Option GroupInfo) → Option GroupInfo
last_of id [] = none
last_of id (none ∷ rest) = last_of id rest
last_of id (some info ∷ rest) =
    or_else (last_of id rest) (if id == info.group_id then some info else none)

lookup-insert :
    (id : String) (info : GroupInfo) (groups : HashMap String GroupInfo)
    → lookup id (insert info.group_id info groups)
      ≡ or_else (if id == info.group_id then some info else none) (lookup id groups)
lookup-insert id info groups = elim (Bool-cases (id == info.group_id)) [
  | inl same ↦ rw same (
      ap (λ (k : String). lookup k (insert info.group_id info groups))
        ((eq_iff id info.group_id).0 same)
      ∙ lookup-insert_self info.group_id info groups)
  | inr other ↦ rw other (lookup-insert_other id info.group_id info groups other)
]

or_else_assoc : (x y z : Option GroupInfo) → or_else x (or_else y z) ≡ or_else (or_else x y) z
or_else_assoc none y z = refl
or_else_assoc (some a) y z = refl

lookup-insert_all :
    (id : String) (answer : List (Option GroupInfo)) (groups : HashMap String GroupInfo)
    → lookup id (insert_all answer groups) ≡ or_else (last_of id answer) (lookup id groups)
unfolding insert_all
lookup-insert_all id [] groups = refl
lookup-insert_all id (none ∷ rest) groups = lookup-insert_all id rest groups
lookup-insert_all id (some info ∷ rest) groups =
    lookup-insert_all id rest (insert info.group_id info groups)
    ∙ ap (λ found. or_else (last_of id rest) found) (lookup-insert id info groups)
    ∙ or_else_assoc (last_of id rest) (if id == info.group_id then some info else none)
        (lookup id groups)

or_else-none : (x : Option GroupInfo) → or_else x none ≡ x
or_else-none none = refl
or_else-none (some a) = refl

lookup-insert_all_fresh :
    (id : String) (answer : List (Option GroupInfo))
    → lookup id (insert_all answer []) ≡ last_of id answer
unfolding lookup
lookup-insert_all_fresh id answer =
    lookup-insert_all id answer [] ∙ or_else-none (last_of id answer)

module _ {R : Type 0} (o : Outside R) where
  -- the relay's answer, or why there is none
  abbrev pub answer_to : Request → Device R → Result ClientError Response
  answer_to request d = (request_ok o "Failed to list groups" request d).0

  -- the rest of `sync_groups`, after the request
  synced_or_not :
      (d : Device R) (x : Result ClientError Response × Device R)
      → x.1.me ≡ d.me
      → (((e : ClientError) × ((continue x.0
                (λ resp. modify (with_groups (insert_all (unwrap_or [] resp.groups) [])))
                x.1).0
              ≡ err e)
            × ((continue x.0
                  (λ resp. modify (with_groups (insert_all (unwrap_or [] resp.groups) [])))
                  x.1).1.me
                ≡ d.me))
          ⊎ ((resp : Response) × (x.0 ≡ ok resp)
              × ((continue x.0
                    (λ resp. modify (with_groups (insert_all (unwrap_or [] resp.groups) [])))
                    x.1).0
                  ≡ ok tt)
              × ((id : String)
                  → lookup id
                      (continue x.0
                        (λ resp. modify (with_groups (insert_all (unwrap_or [] resp.groups) [])))
                        x.1).1.me.groups
                    ≡ last_of id (unwrap_or [] resp.groups))))
  synced_or_not d (err e, after) kept = inl (e, refl, kept)
  synced_or_not d (ok resp, after) kept =
      inr (resp, refl, refl, λ id. lookup-insert_all_fresh id (unwrap_or [] resp.groups))

  -- `sync_groups` either fails, and the client is as it was; or the relay has answered, and for every
  -- id the client has the last entry of the answer with that id, and no group of before.
  pub sync_groups-lookup :
      (d : Device R)
      → ((e : ClientError) × ((sync_groups o d).0 ≡ err e) × ((sync_groups o d).1.me ≡ d.me))
        ⊎ ((resp : Response) × (answer_to (my_groups d.me.user_id) d ≡ ok resp)
            × ((sync_groups o d).0 ≡ ok tt)
            × ((id : String)
                → lookup id (sync_groups o d).1.me.groups ≡ last_of id (unwrap_or [] resp.groups)))
  unfolding sync_groups
  sync_groups-lookup d =
      synced_or_not d (request_ok o "Failed to list groups" (my_groups d.me.user_id) d)
        (request_ok-Keeps o (λ me. me) "Failed to list groups" (my_groups d.me.user_id) d)
