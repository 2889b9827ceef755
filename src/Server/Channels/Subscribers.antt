-- ===== src/Server/Channels/Subscribers.antt =====
-- Who subscribes to a channel.
use tintin.Prelude.{
  ℕ, ◌≡◌, refl, Bool, true, not, ◌&&◌, ◌||◌, String, List, [], ◌∷◌, none, ok, arith, ◌==◌, text_eq,
  number_eq, Bool-cases, inl, inr,
}
use mathlib.Core.Path.{subst₂}
use text.Mathlib.TextEquality.{eq_iff}
use tintin.Prelude.Rows.{delete, exists}
use tintin.Prelude.Rows.Laws.{exists-append}
use tintin.Server.Db.{Tables, SubscriberRow, reliable, references}
use tintin.Server.Channels.{
  is_channel, is_subscriber, with_subscriber, subscribe_channel, unsubscribe_channel,
}

unfoldable pub subscribes : ℕ → String → Tables → Bool
subscribes channel_id user_id t = exists (is_subscriber channel_id user_id) t.channel_subscribers

subscribes-with_subscriber :
    (i k : ℕ) (u v : String) (t : Tables)
    → subscribes k v (with_subscriber i u t) ≡ (subscribes k v t || (i == k && u == v))
unfolding subscribes exists
subscribes-with_subscriber i k u v t = rw exists-append (ground arith)

absorbed :
    (i k : ℕ) (u v : String) (t : Tables)
    → subscribes i u t ≡ true
    → subscribes k v t ≡ (subscribes k v t || (i == k && u == v))
absorbed i k u v t there = elim (Bool-cases (i == k && u == v)) [
  | inl same ↦
      let p : i ≡ k = ground arith in
      let q : u ≡ v = (eq_iff u v).0 (ground arith) in
      subst₂ (λ x y. subscribes x y t ≡ (subscribes x y t || (i == x && u == y))) p q
        (rw there refl)
  | inr other ↦ rw other (ground arith)
]

-- Subscribing to a channel that exists, or where foreign keys are not enforced, returns where no
-- statement fails; after it exactly those subscribe who did before, and the user.
pub subscribes-subscribe_channel :
    (i k : ℕ) (u v : String) (b : Bool) (t : Tables)
    → references b (exists (is_channel i) t.channels) ≡ none
    → (t' : Tables) × (subscribe_channel i u (reliable b t) ≡ (ok tt, reliable b t'))
      × (subscribes k v t' ≡ (subscribes k v t || (i == k && u == v)))
unfolding subscribe_channel subscribes
subscribes-subscribe_channel i k u v b t found =
    elim (Bool-cases (exists (is_subscriber i u) t.channel_subscribers)) [
      | inl there ↦ (t, rw there (rw there), absorbed i k u v t there)
      | inr new ↦
          (with_subscriber i u t, rw new (rw found (rw new)), subscribes-with_subscriber i k u v t)
    ]

exists-delete_subscriber :
    (i k : ℕ) (u v : String) (rows : List SubscriberRow)
    → exists (is_subscriber k v) (delete (is_subscriber i u) rows)
      ≡ (exists (is_subscriber k v) rows && not (i == k && u == v))
unfolding exists delete
exists-delete_subscriber i k u v [] = refl
exists-delete_subscriber i k u v (x ∷ xs) =
    ground (
      arith,
      exists-delete_subscriber i k u v xs,
      eq_iff x.user_id u,
      eq_iff x.user_id v,
      eq_iff u v,
    )

-- Where no statement fails, after a user unsubscribes from a channel exactly those subscribe who
-- did before, less that user.
pub subscribes-unsubscribe_channel :
    (i k : ℕ) (u v : String) (b : Bool) (t : Tables)
    → (t' : Tables) × (unsubscribe_channel i u (reliable b t) ≡ (ok tt, reliable b t'))
      × (subscribes k v t' ≡ (subscribes k v t && not (i == k && u == v)))
unfolding unsubscribe_channel subscribes
subscribes-unsubscribe_channel i k u v b t = (
  record t { channel_subscribers = delete (is_subscriber i u) t.channel_subscribers },
  refl,
  exists-delete_subscriber i k u v t.channel_subscribers,
)
