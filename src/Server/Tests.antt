-- ===== src/Server/Tests.antt =====
-- The relay on a small database.
pub mod Requests
use tintin.Prelude.{
  Every, map, ℕ, ◌+◌, ◌<◌, ◌≤◌, ◌≡◌, ◌↔◌, refl, Bool, true, false, not, ◌&&◌, ◌||◌, if◌then◌else◌,
  ◌==◌, text_eq, number_eq, List, [], ◌∷◌, ◌++◌, Option, none, some, Result, ok, err, arith, length,
  String, Every,
}
use tintin.Prelude.Rows.{select, delete, count, exists, find}
use tintin.Prelude.Rows.Numbered.{IsNumbered}
use tintin.Core.Message.{Envelope, normal, receipt}
use tintin.Server.Db.{
  Tables, new_tables, UserRow, StatusRow, PostRow, VoteRow, OptionRow, SqlError, fault, refusal,
  reliable,
}
use tintin.Server.Users.{register_user, set_presence, get_key_bundle}
use tintin.Server.Users.Directory.{user_row, get_key_bundle-register_user, user_row-set_presence}
use tintin.Server.Messages.{is_to, is_receipted, queue_message, fetch_messages, decode_all}
use tintin.Server.Messages.Mailbox.{
  QueueIsNumbered, waiting, receipts_to, waiting-queue_message, waiting-fetch_messages,
  receipts_end,
}
use tintin.Server.Messages.Faults.{failing_third, fetch_loses_messages}
use tintin.Server.Groups.{is_group, create_group, add_group_member, remove_group_member, with_group}
use tintin.Server.Groups.Hex.{generate_group_id}
use tintin.Server.Groups.Members.{
  role_of, role_of-add_group_member, role_of-remove_group_member, add_to_missing_group,
}
use tintin.Server.Groups.Creation.{create_group_lem, create_group_torn}
use tintin.Server.Channels.{subscribe_channel, unsubscribe_channel}
use tintin.Server.Channels.Subscribers.{
  subscribes, subscribes-subscribe_channel, subscribes-unsubscribe_channel,
}
use tintin.Server.Statuses.{set_status, clear_status, is_active}
use tintin.Server.Statuses.Expiry.{is_active_iff, story_of, story_of-set_clear}
use tintin.Server.Polls.{
  is_poll, vote_poll, close_poll, poll_results, is_open, OptionResult, PollResults,
}
use tintin.Server.Polls.Ballots.{sum_by, options_of}
use tintin.Server.Polls.Results.{shown, is_ballot, poll_results_lem}
use tintin.Server.Polls.Voting.{
  vote_of, vote_of-vote_poll, vote_refused, is_creator, closed_if, close_poll_lem,
}
use tintin.Server.Timeline.{delete_post, get_timeline, is_post, is_post_of, TimelinePost}
use tintin.Server.Timeline.Posts.{
  comments_on, delete_post_own, delete_post_of_another, length-get_timeline,
}
use tintin.Server.Toy.{toy_envelopes, toy_envelopes-ReadsBack}

abbrev pub town : Tables
town = record new_tables {
  users =
      record {
        user_id = "alice";
        identity_key = 1 ∷ [];
        signed_pre_key = "{}";
        presence = "offline";
      }
      ∷ [];
  groups = record { group_id = "g"; name = "team"; creator = "alice" } ∷ [];
  group_members = record { group_id = "g"; user_id = "alice"; role = "admin" } ∷ [];
  statuses = record { user_id = "alice"; content = "hi"; created_at = 5 } ∷ [];
  channels = record { channel_id = 1; name = "news"; owner_id = "alice" } ∷ [];
  channel_seq = 1;
  channel_subscribers = record { channel_id = 1; user_id = "alice" } ∷ [];
  polls =
      record { poll_id = 1; creator = "alice"; question = "when"; active = 1; created_at = 5 } ∷ [];
  poll_seq = 1;
  poll_options =
      record { option_id = 1; poll_id = 1; option_text = "now" }
      ∷ record { option_id = 2; poll_id = 1; option_text = "later" }
      ∷ [];
  option_seq = 2;
  poll_votes = record { poll_id = 1; user_id = "bob"; option_id = 2 } ∷ [];
  timeline_posts =
      record {
        post_id = 1;
        user_id = "alice";
        target_user_id = none;
        content = "hi";
        created_at = 5;
      }
      ∷ [];
  post_seq = 1;
  timeline_comments =
      record { comment_id = 1; post_id = 1; user_id = "bob"; content = "oh"; created_at = 6 } ∷ [];
  comment_seq = 1;
}

abbrev note : Envelope
note = record {
  sender_id = "alice";
  recipient_id = "bob";
  sender_device_id = 1;
  timestamp = 5;
  content = 7 ∷ [];
  msg_type = normal;
}

-- the database after the note was queued
abbrev posted : Tables
posted = record town {
  messages =
      record {
        id = 1;
        sender_id = "alice";
        recipient_id = "bob";
        envelope = toy_envelopes.to_string note;
      }
      ∷ [];
  message_seq = 1;
}

posted-QueueIsNumbered : QueueIsNumbered posted
posted-QueueIsNumbered = (omega arith, tt, tt)

note_waits : waiting toy_envelopes "bob" posted ≡ note ∷ []
unfolding select decode_all
note_waits = rw (toy_envelopes-ReadsBack.from_str-to_string note, decode_all) refl

waiting-queue_message_example :
    (t : Tables) × (queue_message toy_envelopes note (reliable true town)
      ≡ (ok tt, reliable true t))
    × (waiting toy_envelopes "bob" t ≡ waiting toy_envelopes "bob" town ++ note ∷ [])
waiting-queue_message_example =
    waiting-queue_message toy_envelopes toy_envelopes-ReadsBack note "bob" true town

waiting-fetch_messages_example :
    (t : Tables) × (fetch_messages toy_envelopes (λ i. 9) "bob" (reliable true posted)
      ≡ (ok (waiting toy_envelopes "bob" posted), reliable true t))
    × (waiting toy_envelopes "alice" t
        ≡ waiting toy_envelopes "alice" posted
          ++ receipts_to toy_envelopes (λ i. 9) "bob" (waiting toy_envelopes "bob" posted) "alice")
waiting-fetch_messages_example =
    waiting-fetch_messages toy_envelopes toy_envelopes-ReadsBack (λ i. 9) "bob" "alice" true posted
      posted-QueueIsNumbered

fetch_loses_messages_example :
    ((fetch_messages toy_envelopes
        (λ i. 9)
        "bob"
        (failing_third toy_envelopes true posted (fault "disk full") [])).0
      ≡ err (fault "disk full"))
    × (waiting toy_envelopes "bob"
          (fetch_messages toy_envelopes
            (λ i. 9)
            "bob"
            (failing_third toy_envelopes true posted (fault "disk full") [])).1.tables
        ≡ [])
fetch_loses_messages_example =
    fetch_loses_messages toy_envelopes (λ i. 9) "bob" true posted (fault "disk full") [] note []
      posted-QueueIsNumbered note_waits refl

get_key_bundle-register_user_example :
    (t : Tables) × (register_user "bob" (2 ∷ []) "{1}" (reliable true town)
      ≡ (ok tt, reliable true t))
    × ((get_key_bundle (λ text. text) "bob" (reliable true t)).0
        ≡ ok (some (record { identity_key = 2 ∷ []; signed_pre_key = "{1}" })))
get_key_bundle-register_user_example =
    get_key_bundle-register_user (λ text. text) "bob" "bob" (2 ∷ []) "{1}" true town

role_of-add_group_member_example :
    (t : Tables) × (add_group_member "g" "bob" (reliable true town) ≡ (ok tt, reliable true t))
    × (role_of "g" "bob" t ≡ some "member")
unfolding exists role_of find
role_of-add_group_member_example = role_of-add_group_member "g" "bob" "g" "bob" true town refl

create_group_lem_example :
    (t : Tables) × (create_group 5 7 "chess" "bob" (reliable true town)
      ≡ (ok (generate_group_id 5 7), reliable true t))
    × (exists (is_group (generate_group_id 5 7)) t.groups ≡ true)
    × (role_of "g" "alice" t ≡ some "admin")
unfolding exists generate_group_id role_of find
create_group_lem_example = create_group_lem 5 7 "chess" "bob" true town "g" "alice" refl refl

create_group_torn_example :
    create_group 5 7 "chess" "bob"
      (record { tables = town; faults = none ∷ some (fault "disk full") ∷ []; enforces = true })
    ≡ (
      err (fault "disk full"),
      record {
        tables = with_group (generate_group_id 5 7) "chess" "bob" town;
        faults = [];
        enforces = true;
      },
    )
unfolding exists generate_group_id
create_group_torn_example =
    create_group_torn 5 7 "chess" "bob" true town (fault "disk full") [] refl

abbrev story : StatusRow
story = record { user_id = "alice"; content = "hi"; created_at = 5 }

is_active_iff_example : (is_active 100000 story ≡ true) ↔ (100000 < 86405)
is_active_iff_example = is_active_iff 100000 story (omega arith)

story_of-set_clear_example :
    (t : Tables) × (set_status 9 "alice" "new" (reliable true town) ≡ (ok 9, reliable true t))
    × (story_of "alice" t ≡ record { user_id = "alice"; content = "new"; created_at = 9 } ∷ [])
    × (t' : Tables) × (clear_status "alice" (reliable true town) ≡ (ok tt, reliable true t'))
    × (story_of "alice" t' ≡ [])
story_of-set_clear_example = story_of-set_clear 9 "alice" "alice" "new" true town

poll_results_lem_example :
    (res : PollResults) × (poll_results 1 (reliable true town)
      ≡ (ok (some res), reliable true town))
    × (res.poll_id ≡ 1)
    × (res.question ≡ "when")
    × (res.creator ≡ "alice")
    × (res.active ≡ is_open 1 town)
    × (map shown res.options
        ≡ map (λ (o : OptionRow). (o.option_id, o.option_text)) (options_of 1 town))
    × Every
        (λ (r : OptionResult). r.votes ≡ count (is_ballot 1 r.option_id) town.poll_votes)
        res.options
    × (sum_by (λ (r : OptionResult). r.votes) res.options
        ≡ count (λ (v : VoteRow). v.poll_id == 1) town.poll_votes)
unfolding exists find
poll_results_lem_example =
    poll_results_lem 1 true town
      (record { poll_id = 1; creator = "alice"; question = "when"; active = 1; created_at = 5 })
      town_numbered (refl, tt) refl
  where
    town_numbered : IsNumbered (λ (o : OptionRow). o.option_id) 2 town.poll_options
    town_numbered = (omega arith, (omega arith, tt), (omega arith, tt, tt))

vote_of-vote_poll_example :
    (t : Tables) × (vote_poll 1 "bob" 1 (reliable true town) ≡ (ok tt, reliable true t))
    × (vote_of 1 "bob" t ≡ some 1)
unfolding exists find
vote_of-vote_poll_example = vote_of-vote_poll 1 1 1 "bob" "bob" true town refl refl

vote_refused_example :
    vote_poll 1 "bob" 3 (reliable true town)
    ≡ (err (refusal "Option not found"), reliable true town)
unfolding exists find
vote_refused_example = vote_refused 1 3 "bob" true town refl

close_poll_lem_example :
    (t : Tables) × (close_poll 1 "alice" (reliable true town)
      ≡ (ok (is_creator 1 "alice" town), reliable true t))
    × ((is_open 1 t ≡ false)
        × (find (is_poll 1) t.polls ≡ closed_if true (find (is_poll 1) town.polls))
        × (record t { polls = town.polls } ≡ town))
unfolding is_creator find
close_poll_lem_example = close_poll_lem 1 1 "alice" true town

delete_post_own_example :
    (t : Tables) × (delete_post 1 "alice" (reliable true town) ≡ (ok true, reliable true t))
    × (exists (is_post_of 1 "alice") t.timeline_posts ≡ false)
    × (select (λ (p : PostRow). is_post 1 p && not (p.user_id == "alice")) t.timeline_posts
        ≡ select (λ (p : PostRow). is_post 1 p && not (p.user_id == "alice")) town.timeline_posts)
    × (comments_on 1 t ≡ [])
unfolding exists
delete_post_own_example = delete_post_own 1 1 "alice" true town refl

delete_post_of_another_example :
    (t : Tables) × (delete_post 1 "mallory" (reliable true town) ≡ (ok false, reliable true t))
    × (t.timeline_posts ≡ town.timeline_posts)
    × (comments_on 1 t ≡ [])
unfolding exists
delete_post_of_another_example = delete_post_of_another 1 "mallory" true town refl
