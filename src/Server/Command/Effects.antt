-- ===== src/Server/Command/Effects.antt =====
-- What requests to tintin-server/src/main.rs do to the database.
use tintin.Prelude.{
  ◌++◌, ℕ, ◌+◌, ◌≡◌, refl, Bool, true, false, ◌&&◌, ◌||◌, String, none, some, ok, if◌then◌else◌,
  ◌==◌, text_eq, number_eq, ltb, length, Bool-cases, inl, inr, arith,
}
use tintin.Prelude.Rows.{exists}
use tintin.Prelude.Rows.Laws.{exists-append, count-exists}
use tintin.Server.Db.{Tables, reliable, references}
use tintin.Server.Groups.{is_group, group_exists}
use tintin.Server.Groups.Members.{role_of, or_new, role_of-add_group_member}
use tintin.Server.Channels.{is_channel, with_channel, create_channel}
use tintin.Server.Channels.Subscribers.{subscribes, subscribes-subscribe_channel}
use tintin.Server.Command.Payload.{Json, JoinGroupCmd, CreateChannelCmd, CreatePollCmd}
use tintin.Server.Command.Response.{
  success, failure, group_not_found, too_few_options, json_channel_id, json_poll_id,
}
use tintin.Prelude.Rows.Numbered.{IsNumbered}
use tintin.Server.Polls.Making.{offered, create_poll_lem}
use tintin.Server.Db.{PollRow}
use tintin.Server.Command.Rooms.{handle_join_group}
use tintin.Server.Command.Broadcasts.{handle_create_channel}
use tintin.Server.Command.Votes.{handle_create_poll}

module _ (js : Json) where
  -- A request with a payload for a group that does not exist is refused, and changes nothing. For a
  -- group that exists it succeeds where no statement fails, and every user keeps their role in every
  -- group, except that the one who joins is in this group as "member" if they were not in it.
  pub handle_join_group_lem :
      (value : js.Value) (cmd : JoinGroupCmd) (b : Bool) (t : Tables) (g u : String)
      → js.as_join_group value ≡ ok cmd
      → (t' : Tables) × (handle_join_group js value (reliable b t) ≡ (
        (if exists (is_group cmd.group_id) t.groups
            then success none
            else failure (group_not_found cmd.group_id)),
        reliable b t',
      ))
        × (if exists (is_group cmd.group_id) t.groups
            then role_of g u t'
              ≡ or_new (role_of g u t) (cmd.group_id == g && cmd.user_id == u) "member"
            else t' ≡ t)
  unfolding handle_join_group group_exists
  handle_join_group_lem value cmd b t g u h =
      elim (Bool-cases (exists (is_group cmd.group_id) t.groups)) [
        | inr gone ↦ (t, rw h (rw count-exists (rw gone refl)), rw gone refl)
        | inl there ↦
            let (t', runs, roles) =
              role_of-add_group_member cmd.group_id cmd.user_id g u b t (allowed b there) in
            (t', rw h (rw count-exists (rw there (rw runs refl))), rw there roles)
      ]
    where
      allowed : (b : Bool) {found : Bool} → found ≡ true → references b found ≡ none
      allowed true e = rw e refl
      allowed false e = refl

  created_channel_exists :
      (name owner_id : String) (t : Tables)
      → exists (is_channel (t.channel_seq + 1)) (with_channel name owner_id t).channels ≡ true
  unfolding exists
  created_channel_exists name owner_id t = rw exists-append (ground arith)

  -- A channel is made under the next number, and where no statement fails its owner subscribes to
  -- it at once; other channels and users subscribe as before.
  pub handle_create_channel_lem :
      (value : js.Value) (cmd : CreateChannelCmd) (b : Bool) (t : Tables) (k : ℕ) (v : String)
      → js.as_create_channel value ≡ ok cmd
      → (t' : Tables) × (handle_create_channel js value (reliable b t)
          ≡ (success (some (json_channel_id (t.channel_seq + 1))), reliable b t'))
        × (subscribes k v t' ≡ (subscribes k v t || (t.channel_seq + 1 == k && cmd.owner_id == v)))
  unfolding handle_create_channel create_channel subscribes
  handle_create_channel_lem value cmd b t k v h =
      let made : Tables = with_channel cmd.name cmd.owner_id t in
      let (t', runs, who) =
        subscribes-subscribe_channel (t.channel_seq + 1) k cmd.owner_id v b made (allowed b) in
      (t', rw h (rw runs refl), who)
    where
      allowed :
          (b : Bool)
          → references b (
              exists
                (is_channel (t.channel_seq + 1))
                (with_channel cmd.name cmd.owner_id t).channels)
            ≡ none
      allowed true = rw (created_channel_exists cmd.name cmd.owner_id t) refl
      allowed false = refl

  -- A poll needs two options: with fewer the request is refused and nothing changes. Otherwise,
  -- where the numbers of the polls grow along their table and no statement fails, the answer is the
  -- next number, and the poll of that number offers the options, in their order, behind any that
  -- the table held under it.
  pub handle_create_poll_lem :
      (now : ℕ) (value : js.Value) (cmd : CreatePollCmd) (b : Bool) (t : Tables)
      → js.as_create_poll value ≡ ok cmd
      → IsNumbered (λ (r : PollRow). r.poll_id) t.poll_seq t.polls
      → (t' : Tables) × (handle_create_poll js now value (reliable b t) ≡ (
        (if ltb (length cmd.options) 2
            then failure too_few_options
            else success (some (json_poll_id (t.poll_seq + 1)))),
        reliable b t',
      ))
        × (if ltb (length cmd.options) 2
            then t' ≡ t
            else offered (t.poll_seq + 1) t' ≡ offered (t.poll_seq + 1) t ++ cmd.options)
  unfolding handle_create_poll
  handle_create_poll_lem now value cmd b t h numbered =
      elim (Bool-cases (ltb (length cmd.options) 2)) [
        | inl few ↦ (t, rw h (rw few refl), rw few refl)
        | inr enough ↦
            let (t', runs, _, options) =
              create_poll_lem now cmd.creator cmd.question cmd.options b t numbered in
            (t', rw h (rw enough (rw runs refl)), rw enough options)
      ]
