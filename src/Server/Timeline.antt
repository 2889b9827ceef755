-- ===== src/Server/Timeline.antt =====
-- The timeline of tintin-server/src/store.rs. `ts` is the clock, in seconds since the epoch.
pub mod Posts
use tintin.Prelude.{
  ok, ℕ, ◌+◌, ◌≡◌, refl, Bool, true, false, ◌&&◌, ◌||◌, String, List, [], ◌∷◌, ◌++◌, Option, none,
  some, map, pure, ◌>>=◌, ◌>>◌, ltb, leb, take, length, ◌==◌, text_eq, number_eq,
}
use tintin.Prelude.Rows.{select, delete, exists, count}
use tintin.Prelude.Rows.Order.{order_by}
use tintin.Server.Db.{
  Tables, PostRow, CommentRow, MemberRow, MessageRow, Db, query, change, execute, checked,
  references,
}

abbrev pub is_comment_on : ℕ → CommentRow → Bool
is_comment_on post_id row = row.post_id == post_id

abbrev pub is_post : ℕ → PostRow → Bool
is_post post_id row = row.post_id == post_id

abbrev pub is_post_of : ℕ → String → PostRow → Bool
is_post_of post_id user_id row = row.post_id == post_id && row.user_id == user_id

abbrev pub with_post : ℕ → String → String → Option String → Tables → Tables
with_post ts user_id content target_user_id t = record t {
  timeline_posts =
      t.timeline_posts
      ++ record {
        post_id = t.post_seq + 1;
        user_id = user_id;
        target_user_id = target_user_id;
        content = content;
        created_at = ts;
      }
        ∷ [];
  post_seq = t.post_seq + 1;
}

abbrev pub with_comment : ℕ → ℕ → String → String → Tables → Tables
with_comment ts post_id user_id content t = record t {
  timeline_comments =
      t.timeline_comments
      ++ record {
        comment_id = t.comment_seq + 1;
        post_id = post_id;
        user_id = user_id;
        content = content;
        created_at = ts;
      }
        ∷ [];
  comment_seq = t.comment_seq + 1;
}

unfoldable pub create_post : ℕ → String → String → Option String → Db ℕ
create_post ts user_id content target_user_id =
    change (λ t. (t.post_seq + 1, with_post ts user_id content target_user_id t))

-- The comments go first, whoever asks; the result says whether a post went.
unfoldable pub delete_post : ℕ → String → Db Bool
delete_post post_id user_id = do
  execute (λ t. record t { timeline_comments = delete (is_comment_on post_id) t.timeline_comments })
  affected ← change (λ t. (
    count (is_post_of post_id user_id) t.timeline_posts,
    record t { timeline_posts = delete (is_post_of post_id user_id) t.timeline_posts },
  ))
  pure (ltb 0 affected)

-- the sub-select: who shares a group with the user, has a message queued for them, or from them
unfoldable pub is_contact : Tables → String → String → Bool
is_contact t user_id other =
    exists
      (λ (m : MemberRow).
        m.user_id == other
        && exists (λ (n : MemberRow). n.group_id == m.group_id && n.user_id == user_id)
            t.group_members)
      t.group_members
    || exists (λ (m : MessageRow). m.recipient_id == user_id && m.sender_id == other) t.messages
    || exists (λ (m : MessageRow). m.sender_id == user_id && m.recipient_id == other) t.messages

-- a comparison with NULL does not hold
unfoldable pub is_target : String → PostRow → Bool
is_target user_id p = elim p.target_user_id [ none ↦ false | some target ↦ target == user_id ]

-- the WHERE clause of the timeline
unfoldable pub is_visible : Tables → String → PostRow → Bool
unfolding is_contact is_target
is_visible t user_id p =
    p.user_id == user_id || is_contact t user_id p.user_id || is_target user_id p

pub record TimelinePost : Type 0 where
  pub post : PostRow
  pub comment_count : ℕ

unfoldable pub get_timeline : String → Db (List TimelinePost)
unfolding is_visible
get_timeline user_id = query (λ t.
    map
      (λ (p : PostRow). record {
        post = p;
        comment_count = count (is_comment_on p.post_id) t.timeline_comments;
      })
      (take 100 (
        order_by (λ (a b : PostRow). leb b.created_at a.created_at)
          (select (is_visible t user_id) t.timeline_posts))))

unfoldable pub add_comment : ℕ → ℕ → String → String → Db ℕ
add_comment ts post_id user_id content = do
  checked (λ b t. references b (exists (is_post post_id) t.timeline_posts))
      (with_comment ts post_id user_id content)
  λ c. (ok c.tables.comment_seq, c)

unfoldable pub get_comments : ℕ → Db (List CommentRow)
get_comments post_id = query (λ t.
    order_by (λ (a b : CommentRow). leb a.created_at b.created_at)
      (select (is_comment_on post_id) t.timeline_comments))
