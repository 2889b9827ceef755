-- ===== src/Client/Groups.antt =====
-- Users, presence and groups, of tintin-cli/src/main.rs.
pub mod Synced
use tintin.Prelude.{
  ℕ, Bool, true, false, not, String, List, [], ◌∷◌, ◌++◌, Option, none, some, Result, ok, err, pure,
  ◌>>=◌, ◌>>◌, ◌==◌, text_eq, if◌then◌else◌,
}
use tintin.Prelude.Rows.{select}
use tintin.Prelude.Maps.{HashMap, lookup, insert, remove}
use tintin.Prelude.Texts.{join}
use tintin.Core.Crypto.{Bytes}
use tintin.Core.Message.{Envelope}
use tintin.Client.Wire.{Payload, blank, unwrap_or}
use tintin.Client.State.{
  TinTinClient, GroupInfo, Request, Response, ClientError, list_users as list_users_request,
  set_presence, create_group as create_group_request, join_group as join_group_request,
  leave_group as leave_group_request, my_groups, group_members as group_members_request, send,
  Outside, Device, Run, modify, asks, now, send_line, recv_line,
}
use tintin.Client.Sending.{
  request_ok, establish, encrypt_for, envelope_to, send_message, record_message, tracked,
}

-- the user and the presence, "offline" where it is missing; no entry without a user
unfoldable pub listed : List (Option String × Option String) → List (String × String)
listed [] = []
listed ((none, presence) ∷ rest) = listed rest
listed ((some user, presence) ∷ rest) = (user, unwrap_or "offline" presence) ∷ listed rest

-- `filter_map(|v| v.as_str())`
unfoldable pub names : List (Option String) → List String
names [] = []
names (none ∷ rest) = names rest
names (some name ∷ rest) = name ∷ names rest

-- the loop of `sync_groups` over the groups of the answer
unfoldable pub insert_all :
    List (Option GroupInfo) → HashMap String GroupInfo → HashMap String GroupInfo
unfolding insert
insert_all [] groups = groups
insert_all (none ∷ rest) groups = insert_all rest groups
insert_all (some info ∷ rest) groups = insert_all rest (insert info.group_id info groups)

abbrev pub with_groups : HashMap String GroupInfo → TinTinClient → TinTinClient
with_groups groups me = record me { groups = groups }

abbrev pub name_of : String → Option GroupInfo → String
name_of id none = id
name_of id (some info) = info.name

module _ {R : Type 0} (o : Outside R) where
  unfoldable pub list_users : Run R (List (String × String))
  unfolding request_ok listed
  list_users =
      request_ok o "Failed to list users" list_users_request >>= λ resp. pure (listed resp.users)

  unfoldable pub set_my_presence : String → Run R (Unit {0})
  unfolding request_ok
  set_my_presence presence d =
      (request_ok o "Failed to set presence" (set_presence d.me.user_id presence) >> pure tt) d

  unfoldable pub create_group : String → Run R String
  unfolding request_ok insert
  create_group name = do
    user_id ← asks (λ me. me.user_id)
    resp ← request_ok o "Failed to create group" (create_group_request name user_id)
    let group_id = unwrap_or "" resp.group_id
    modify (λ me.
        with_groups
          (insert group_id
            (record { group_id = group_id; name = name; creator = me.user_id; role = "admin" })
            me.groups)
          me)
    pure group_id

  unfoldable pub sync_groups : Run R (Unit {0})
  unfolding request_ok insert_all
  sync_groups = asks (λ me. me.user_id) >>= λ user_id.
      request_ok o "Failed to list groups" (my_groups user_id) >>= λ resp.
      modify (with_groups (insert_all (unwrap_or [] resp.groups) []))

  unfoldable pub join_group : String → Run R (Unit {0})
  unfolding request_ok sync_groups
  join_group group_id = asks (λ me. me.user_id) >>= λ user_id.
      request_ok o "Failed to join group" (join_group_request group_id user_id) >> sync_groups

  unfoldable pub leave_group : String → Run R (Unit {0})
  unfolding request_ok remove
  leave_group group_id = asks (λ me. me.user_id) >>= λ user_id.
      request_ok o "Failed to leave group" (leave_group_request group_id user_id)
      >> modify (λ me. with_groups (remove group_id me.groups) me)

  unfoldable pub group_members : String → Run R (List String)
  unfolding request_ok names
  group_members group_id =
      request_ok o "Failed to get members" (group_members_request group_id) >>= λ resp.
      pure (names resp.members)

  -- One member's copy of a message: in the session with the member, which is opened if there is none.
  -- That the relay refuses it is only shown.
  unfoldable pub send_copy : Bytes → String → Run R (Unit {0})
  unfolding establish encrypt_for envelope_to
  send_copy payload_bytes member = do
    is_new ← establish o member
    content ← encrypt_for o member is_new payload_bytes
    envelope ← envelope_to o member content
    send_line o (send envelope)
    resp ← recv_line o
    pure tt

  -- the loop over the other members
  unfoldable pub send_copies : Bytes → List String → Run R (Unit {0})
  unfolding send_copy
  send_copies payload_bytes [] = pure tt
  send_copies payload_bytes (member ∷ rest) =
      send_copy payload_bytes member >> send_copies payload_bytes rest

  unfoldable pub group_payload : String → String → String → Payload
  group_payload group_id group_name plaintext = record blank {
    tintin_type = some "group";
    group_id = some group_id;
    group_name = some group_name;
    text = some plaintext;
  }

  -- the message to the others, and what is kept of it
  unfoldable pub spread : String → String → String → List String → Run R (Unit {0})
  unfolding send_copies group_payload record_message
  spread group_id group_name plaintext others = do
    send_copies (o.codec.payloads.to_vec (group_payload group_id group_name plaintext)) others
    timestamp ← now o
    modify (tracked o (join "[" (join group_name (join "] " group_id))) plaintext timestamp)
    record_message o group_name plaintext true true (some group_name) false none

  -- A group of ourselves only: the message is saved as one to oneself.
  unfoldable pub send_group_message : String → String → Run R (Unit {0})
  unfolding group_members send_message spread lookup select
  send_group_message group_id plaintext = do
    group_name ← asks (λ me. name_of group_id (lookup group_id me.groups))
    members ← group_members group_id
    user_id ← asks (λ me. me.user_id)
    elim (select (λ m. not (m == user_id)) members) [
      | [] ↦ send_message o user_id plaintext
      | m ∷ others ↦ spread group_id group_name plaintext (m ∷ others)
    ]
