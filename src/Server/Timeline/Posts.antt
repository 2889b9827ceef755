-- ===== src/Server/Timeline/Posts.antt =====
-- Posts, comments, and who sees them.
use tintin.Prelude.{
  pure, length-map, ℕ, ◌≤◌, ◌≡◌, refl, ap, Bool, true, false, not, ◌&&◌, String, List, [], ◌∷◌, ok,
  map, arith, if◌then◌else◌, ◌==◌, text_eq, number_eq, ltb, leb, take, length, length-take-le,
}
use tintin.Prelude.Rows.{select, delete, exists, count}
use tintin.Prelude.Rows.Laws.{exists-delete_self, select-delete_self, count-zero}
use tintin.Prelude.Rows.Order.{order_by}
use tintin.Server.Db.{Tables, PostRow, CommentRow, reliable}
use tintin.Server.Timeline.{
  is_comment_on, is_post, is_post_of, delete_post, is_visible, TimelinePost, get_timeline,
}

-- the comments on a post
pub comments_on : ℕ → Tables → List CommentRow
comments_on post_id t = select (is_comment_on post_id) t.timeline_comments

delete-absent :
    (i : ℕ) (u : String) (rows : List PostRow)
    → exists (is_post_of i u) rows ≡ false
    → delete (is_post_of i u) rows ≡ rows
unfolding exists delete
delete-absent i u [] h = refl
delete-absent i u (x ∷ xs) h = ground (arith, delete-absent i u xs)

-- Where no statement fails, a request to delete a post by someone who has no post of that number
-- is refused, and no post is deleted; yet every comment on the post is gone.
pub delete_post_of_another :
    (i : ℕ) (u : String) (b : Bool) (t : Tables)
    → exists (is_post_of i u) t.timeline_posts ≡ false
    → (t' : Tables) × (delete_post i u (reliable b t) ≡ (ok false, reliable b t'))
      × (t'.timeline_posts ≡ t.timeline_posts)
      × (comments_on i t' ≡ [])
unfolding delete_post comments_on
delete_post_of_another i u b t absent = (
  record t {
    timeline_comments = delete (is_comment_on i) t.timeline_comments;
    timeline_posts = delete (is_post_of i u) t.timeline_posts;
  },
  rw (count-zero (is_post_of i u) t.timeline_posts absent) refl,
  delete-absent i u t.timeline_posts absent,
  select-delete_self (is_comment_on i) t.timeline_comments,
)

count-positive :
    {A : Type 0} (p : A → Bool) (xs : List A) → exists p xs ≡ true → ltb 0 (count p xs) ≡ true
unfolding exists count
count-positive p [] h = cc
count-positive p (x ∷ xs) h = ground (arith, count-positive p xs)

select-delete_own :
    (i k : ℕ) (u : String) (rows : List PostRow)
    → select (λ (p : PostRow). is_post k p && not (p.user_id == u)) (delete (is_post_of i u) rows)
      ≡ select (λ (p : PostRow). is_post k p && not (p.user_id == u)) rows
unfolding select delete
select-delete_own i k u [] = refl
select-delete_own i k u (x ∷ xs) = ground (arith, select-delete_own i k u xs)

select-delete_comments :
    (i k : ℕ) (rows : List CommentRow)
    → select (is_comment_on k) (delete (is_comment_on i) rows)
      ≡ (if i == k then [] else select (is_comment_on k) rows)
unfolding select delete
select-delete_comments i k [] = ground arith
select-delete_comments i k (x ∷ xs) = ground (arith, select-delete_comments i k xs)

-- Where no statement fails, the author's request deletes the post and says so; the posts of other
-- authors and the comments on other posts are as before.
pub delete_post_own :
    (i k : ℕ) (u : String) (b : Bool) (t : Tables)
    → exists (is_post_of i u) t.timeline_posts ≡ true
    → (t' : Tables) × (delete_post i u (reliable b t) ≡ (ok true, reliable b t'))
      × (exists (is_post_of i u) t'.timeline_posts ≡ false)
      × (select (λ (p : PostRow). is_post k p && not (p.user_id == u)) t'.timeline_posts
          ≡ select (λ (p : PostRow). is_post k p && not (p.user_id == u)) t.timeline_posts)
      × (comments_on k t' ≡ (if i == k then [] else comments_on k t))
unfolding delete_post comments_on
delete_post_own i k u b t own = (
  record t {
    timeline_comments = delete (is_comment_on i) t.timeline_comments;
    timeline_posts = delete (is_post_of i u) t.timeline_posts;
  },
  ap
      (λ (r : Bool). pure r (
        reliable b (record t {
          timeline_comments = delete (is_comment_on i) t.timeline_comments;
          timeline_posts = delete (is_post_of i u) t.timeline_posts;
        })))
      (count-positive (is_post_of i u) t.timeline_posts own),
  exists-delete_self (is_post_of i u) t.timeline_posts,
  select-delete_own i k u t.timeline_posts,
  select-delete_comments i k t.timeline_comments,
)

-- Where no statement fails, the timeline returns, holds at most 100 posts, and changes nothing.
pub length-get_timeline :
    (u : String) (b : Bool) (t : Tables)
    → (posts : List TimelinePost) × (get_timeline u (reliable b t) ≡ (ok posts, reliable b t))
      × (length posts ≤ 100)
unfolding get_timeline
length-get_timeline u b t =
    let newest = λ (a c : PostRow). leb c.created_at a.created_at in
    let shown = order_by newest (select (is_visible t u) t.timeline_posts) in
    (
      map
          (λ (p : PostRow). record {
            post = p;
            comment_count = count (is_comment_on p.post_id) t.timeline_comments;
          })
          (take 100 shown),
      refl,
      rw length-map (length-take-le 100 shown),
    )
