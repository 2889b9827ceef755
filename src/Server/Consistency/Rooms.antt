-- ===== src/Server/Consistency/Rooms.antt =====
-- The operations of store.rs on groups, channels and stories, against the invariant.
use tintin.Prelude.{
  ℕ, ◌+◌, ◌≡◌, refl, Bool, true, false, String, Option, none, some, text_eq, number_eq, Bool-cases,
  inl, inr,
}
use tintin.Prelude.Rows.{delete, exists}
use tintin.Prelude.Rows.Laws.{Distinct-delete, Distinct-append, exists-delete_self}
use tintin.Prelude.Rows.Numbered.{IsNumbered-append}
use tintin.Server.Db.{
  Tables, GroupRow, MemberRow, StatusRow, ChannelRow, SubscriberRow, SqlError, primary_key,
}
use tintin.Server.Db.Keep.{
  Preserves, Preserves-execute, Preserves-checked, Preserves-change, Preserves-bind, Preserves-pure,
}
use tintin.Server.Groups.{
  create_group, insert_group, insert_admin, add_group_member, remove_group_member, with_member,
  is_group, is_member, first_error,
}
use tintin.Server.Channels.{create_channel, subscribe_channel, unsubscribe_channel, is_subscriber}
use tintin.Server.Statuses.{set_status, clear_status, is_status_of}
use tintin.Server.Consistency.{IsConsistent}

first_error-none : (a b : Option SqlError) → first_error a b ≡ none → (a ≡ none) × (b ≡ none)
first_error-none none b h = (refl, h)
first_error-none (some x) b h = cc

primary_key-none : (b : Bool) → primary_key b ≡ none → b ≡ false
primary_key-none true h = cc
primary_key-none false h = refl

with_member-IsConsistent :
    (g u r : String) (t : Tables)
    → exists (is_member g u) t.group_members ≡ false
    → IsConsistent t
    → IsConsistent (with_member g u r t)
with_member-IsConsistent g u r t new h = assumption (
    Distinct-append (λ (a b : MemberRow). is_member b.group_id b.user_id a) t.group_members
      (record { group_id = g; user_id = u; role = r }) h.members new)

insert_group-IsConsistent :
    (g name creator : String) → Preserves IsConsistent (insert_group g name creator)
insert_group-IsConsistent g name creator = Preserves-checked _ _ λ b t h free. assumption (
    Distinct-append (λ (a b : GroupRow). is_group b.group_id a) t.groups
      (record { group_id = g; name = name; creator = creator }) h.groups (primary_key-none _ free))

insert_admin-IsConsistent : (g u : String) → Preserves IsConsistent (insert_admin g u)
insert_admin-IsConsistent g u = Preserves-checked _ _ λ b t h free.
    with_member-IsConsistent g u "admin" t (primary_key-none _ (first_error-none _ _ free).0) h

pub create_group-IsConsistent :
    (millis rnd : ℕ) (name creator : String)
    → Preserves IsConsistent (create_group millis rnd name creator)
unfolding create_group
create_group-IsConsistent millis rnd name creator =
    Preserves-bind _ _ (insert_group-IsConsistent _ name creator)
      λ _. Preserves-bind _ _ (insert_admin-IsConsistent _ creator) λ _. Preserves-pure _

pub add_group_member-IsConsistent : (g u : String) → Preserves IsConsistent (add_group_member g u)
unfolding add_group_member
add_group_member-IsConsistent g u = Preserves-checked _ _ λ b t h free.
    elim (Bool-cases (exists (is_member g u) t.group_members)) [
      | inl there ↦ rw there h
      | inr new ↦ rw new (with_member-IsConsistent g u "member" t new h)
    ]

pub remove_group_member-IsConsistent :
    (g u : String) → Preserves IsConsistent (remove_group_member g u)
unfolding remove_group_member
remove_group_member-IsConsistent g u = Preserves-execute _ λ t h. assumption (
    Distinct-delete (λ (a b : MemberRow). is_member b.group_id b.user_id a) (is_member g u)
      t.group_members h.members)

pub create_channel-IsConsistent :
    (name owner_id : String) → Preserves IsConsistent (create_channel name owner_id)
unfolding create_channel
create_channel-IsConsistent name owner_id = Preserves-change _ λ t h. assumption (
    IsNumbered-append (λ (r : ChannelRow). r.channel_id) t.channel_seq t.channels
      (record { channel_id = t.channel_seq + 1; name = name; owner_id = owner_id }) refl h.channels)

pub subscribe_channel-IsConsistent :
    (i : ℕ) (u : String) → Preserves IsConsistent (subscribe_channel i u)
unfolding subscribe_channel
subscribe_channel-IsConsistent i u = Preserves-checked _ _ λ b t h free.
    elim (Bool-cases (exists (is_subscriber i u) t.channel_subscribers)) [
      | inl there ↦ rw there h
      | inr new ↦ rw new (
          assumption (
            Distinct-append (λ (a b : SubscriberRow). is_subscriber b.channel_id b.user_id a)
              t.channel_subscribers (record { channel_id = i; user_id = u }) h.subscribers new))
    ]

pub unsubscribe_channel-IsConsistent :
    (i : ℕ) (u : String) → Preserves IsConsistent (unsubscribe_channel i u)
unfolding unsubscribe_channel
unsubscribe_channel-IsConsistent i u = Preserves-execute _ λ t h. assumption (
    Distinct-delete (λ (a b : SubscriberRow). is_subscriber b.channel_id b.user_id a)
      (is_subscriber i u) t.channel_subscribers h.subscribers)

pub set_status-IsConsistent :
    (now : ℕ) (u content : String) → Preserves IsConsistent (set_status now u content)
unfolding set_status
set_status-IsConsistent now u content =
    Preserves-bind _ _
      (Preserves-execute _ λ t h. assumption (
        Distinct-append (λ (a b : StatusRow). is_status_of b.user_id a)
          (delete (is_status_of u) t.statuses)
          (record { user_id = u; content = content; created_at = now })
          (Distinct-delete _ (is_status_of u) t.statuses h.statuses)
          (exists-delete_self (is_status_of u) t.statuses)))
      λ _. Preserves-pure _

pub clear_status-IsConsistent : (u : String) → Preserves IsConsistent (clear_status u)
unfolding clear_status
clear_status-IsConsistent u = Preserves-execute _ λ t h. assumption (
    Distinct-delete (λ (a b : StatusRow). is_status_of b.user_id a) (is_status_of u) t.statuses
      h.statuses)
