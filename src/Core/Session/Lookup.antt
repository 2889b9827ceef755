-- ===== src/Core/Session/Lookup.antt =====
-- The session store of session.rs: one session for a peer, and what `get` finds.
use tintin.Prelude.{
  Bool-cases, Option-cases, inl, inr, ◌∙◌, ℕ, ◌≡◌, refl, Bool, true, false, ◌&&◌, String, List, [],
  ◌∷◌, ◌++◌, none, some, arith, ◌==◌, if◌then◌else◌, length, length-append,
}
use tintin.Prelude.{number_eq, text_eq, ◌+◌}
use text.Mathlib.TextEquality.{eq_iff}
use tintin.Prelude.Rows.{find, delete, exists, Distinct}
use tintin.Prelude.Rows.Laws.{Distinct-delete, Distinct-append, exists-delete_self}
use tintin.Core.Session.{Session, SessionStore, is_for, get, add, remove, len}

abbrev same_peer : Session → Session → Bool
same_peer s t = is_for t.remote_user_id t.remote_device_id s

-- No two sessions are for one user and device.
abbrev pub HasOnePerPeer : SessionStore → Type 0
HasOnePerPeer store = Distinct same_peer store.sessions

find-delete :
    (u u' : String) (d d' : ℕ) (xs : List Session)
    → find (is_for u d) (delete (is_for u' d') xs)
      ≡ (if u' == u && d' == d then none else find (is_for u d) xs)
unfolding find delete
find-delete u u' d d' [] = ground arith
find-delete u u' d d' (x ∷ xs) = ground (
  arith,
  find-delete u u' d d' xs,
  eq_iff x.remote_user_id u,
  eq_iff x.remote_user_id u',
  eq_iff u' u,
)

-- After `remove`, `get` finds nothing for that user and device, and for any other what it found
-- before.
pub get-remove :
    (store : SessionStore) (u u' : String) (d d' : ℕ)
    → get (remove store u' d') u d ≡ (if u' == u && d' == d then none else get store u d)
unfolding get remove
get-remove store u u' d d' = find-delete u u' d d' store.sessions

find-append_full :
    (u : String) (d : ℕ) (xs : List Session) (s : Session)
    → find (is_for u d) xs ≡ none
    → find (is_for u d) (xs ++ s ∷ []) ≡ (if is_for u d s then some s else none)
unfolding find
find-append_full u d [] s h = refl
find-append_full u d (x ∷ xs) s h = ground (arith, find-append_full u d xs s)

find-append_other :
    (u : String) (d : ℕ) (xs : List Session) (s : Session)
    → is_for u d s ≡ false
    → find (is_for u d) (xs ++ s ∷ []) ≡ find (is_for u d) xs
unfolding find
find-append_other u d [] s h = ground arith
find-append_other u d (x ∷ xs) s h = ground (arith, find-append_other u d xs s h)

-- After `add`, `get` returns the added session for its user and device, and for any other what it
-- returned before.
pub get-add :
    (store : SessionStore) (s : Session) (u : String) (d : ℕ)
    → get (add store s) u d ≡ (if is_for u d s then some s else get store u d)
unfolding get add
get-add store s u d =
    let kept = delete (is_for s.remote_user_id s.remote_device_id) store.sessions in
    let found = find-delete u s.remote_user_id d s.remote_device_id store.sessions in
    elim (Bool-cases (is_for u d s)) [
      | inl same ↦ rw same (find-append_full u d kept s (found ∙ rw same) ∙ rw same)
      | inr other ↦ rw other (find-append_other u d kept s other ∙ found ∙ rw other)
    ]

-- `add` keeps one session for a user and device at most.
pub add-HasOnePerPeer :
    (store : SessionStore) (s : Session) → HasOnePerPeer store → HasOnePerPeer (add store s)
unfolding add
add-HasOnePerPeer store s h =
    let same = is_for s.remote_user_id s.remote_device_id in
    Distinct-append same_peer (delete same store.sessions) s
      (Distinct-delete same_peer same store.sessions h) (exists-delete_self same store.sessions)

pub remove-HasOnePerPeer :
    (store : SessionStore) (u : String) (d : ℕ)
    → HasOnePerPeer store
    → HasOnePerPeer (remove store u d)
unfolding remove
remove-HasOnePerPeer store u d h = Distinct-delete same_peer (is_for u d) store.sessions h

length-delete-none :
    (p : Session → Bool) (xs : List Session) → find p xs ≡ none → length (delete p xs) ≡ length xs
unfolding find delete
length-delete-none p [] h = refl
length-delete-none p (x ∷ xs) h = ground (arith, length-delete-none p xs)

length-delete_apart :
    (u : String) (d : ℕ) (x : Session) (xs : List Session)
    → exists (same_peer x) xs ≡ false
    → is_for u d x ≡ true
    → length (delete (is_for u d) xs) ≡ length xs
unfolding exists delete
length-delete_apart u d x [] h e = refl
length-delete_apart u d x (y ∷ ys) h e = ground (
  arith,
  length-delete_apart u d x ys,
  eq_iff x.remote_user_id u,
  eq_iff y.remote_user_id u,
  eq_iff x.remote_user_id y.remote_user_id,
)

length-delete_one :
    (u : String) (d : ℕ) (s : Session) (xs : List Session)
    → Distinct same_peer xs
    → find (is_for u d) xs ≡ some s
    → length (delete (is_for u d) xs) + 1 ≡ length xs
unfolding find delete
length-delete_one u d s [] h e = cc
length-delete_one u d s (x ∷ xs) h e =
    ground (arith, length-delete_one u d s xs h.1, length-delete_apart u d x xs h.0)

-- Where the store holds one session for a user and device at most, `add` keeps the number of
-- sessions if it replaces one, and otherwise adds one.
pub len-add :
    (store : SessionStore) (s : Session)
    → HasOnePerPeer store
    → len (add store s) ≡ elim (get store s.remote_user_id s.remote_device_id) [
      | none ↦ len store + 1
      | some _ ↦ len store
    ]
unfolding get add len
len-add store s one =
    let u = s.remote_user_id in
    let d = s.remote_device_id in
    let grown = length-append (delete (is_for u d) store.sessions) (s ∷ []) in
    elim (Option-cases (find (is_for u d) store.sessions)) [
      | inl new ↦ rw new (omega (arith, grown, length-delete-none (is_for u d) store.sessions new))
      | inr (t, old) ↦ rw old (omega (arith, grown, length-delete_one u d t store.sessions one old))
    ]
