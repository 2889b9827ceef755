-- ===== src/Server/Users/Directory.antt =====
-- Registration, key bundles and presence, as other users see them.
use tintin.Prelude.{
  ◌≡◌, refl, Bool, false, String, List, [], ◌∷◌, ◌++◌, Option, none, some, ok, arith, if◌then◌else◌,
  ◌==◌, text_eq, Bool-cases, inl, inr,
}
use text.Mathlib.TextEquality.{eq_iff}
use tintin.Prelude.Rows.{delete, update, find}
use tintin.Prelude.Rows.Laws.{find-append}
use tintin.Core.Crypto.{Bytes}
use tintin.Server.Db.{Tables, UserRow, reliable}
use tintin.Server.Users.{is_user, register_user, set_presence, get_key_bundle}

-- the row of a user
pub user_row : String → Tables → Option UserRow
user_row user_id t = find (is_user user_id) t.users

find-delete_user :
    (u v : String) (rows : List UserRow)
    → find (is_user v) (delete (is_user u) rows) ≡ (if u == v then none else find (is_user v) rows)
unfolding find delete
find-delete_user u v [] = ground arith
find-delete_user u v (x ∷ xs) =
    ground (arith, find-delete_user u v xs, eq_iff x.user_id u, eq_iff x.user_id v, eq_iff u v)

find-update_user :
    (u v presence : String) (rows : List UserRow)
    → find (is_user v) (update (is_user u) (λ (r : UserRow). record r { presence = presence }) rows)
      ≡ elim (find (is_user v) rows) [
        | none ↦ none
        | some r ↦ some (if u == v then record r { presence = presence } else r)
      ]
unfolding find update
find-update_user u v presence [] = refl
find-update_user u v presence (x ∷ xs) =
    ground
      (arith, find-update_user u v presence xs, eq_iff x.user_id u, eq_iff x.user_id v, eq_iff u v)

-- Where no statement fails, registering leaves the user with the new keys and the presence
-- "offline", whatever was there before, and every other user's row as it was.
pub user_row-register_user :
    (u v : String) (identity_key : Bytes) (signed_pre_key : String) (b : Bool) (t : Tables)
    → (t' : Tables) × (register_user u identity_key signed_pre_key (reliable b t)
        ≡ (ok tt, reliable b t'))
      × (user_row v t' ≡ (
          if u == v
          then some (record {
            user_id = u;
            identity_key = identity_key;
            signed_pre_key = signed_pre_key;
            presence = "offline";
          })
          else user_row v t))
unfolding register_user user_row
user_row-register_user u v ik spk b t =
    let new : UserRow = record {
      user_id = u;
      identity_key = ik;
      signed_pre_key = spk;
      presence = "offline";
    } in
    (
      record t { users = delete (is_user u) t.users ++ new ∷ [] },
      refl,
      rw find-append (
          rw find-delete_user (elim (Bool-cases (u == v)) [
            | inl same ↦ rw same (rw same refl)
            | inr other ↦ rw other (kept other (find (is_user v) t.users))
          ])),
    )
  where
    kept :
        (u == v) ≡ false
        → (o : Option UserRow)
        → elim o [
          | some x ↦ some x
          | none ↦
              if u == v
              then some (record {
                user_id = u;
                identity_key = ik;
                signed_pre_key = spk;
                presence = "offline";
              })
              else none
        ]
          ≡ o
    kept other none = rw other
    kept other (some x) = refl

-- Where no statement fails, setting the presence of a user changes it in their row, if they are
-- registered, and nothing else in any row; it registers no one.
pub user_row-set_presence :
    (u v presence : String) (b : Bool) (t : Tables)
    → (t' : Tables) × (set_presence u presence (reliable b t) ≡ (ok tt, reliable b t'))
      × (user_row v t' ≡ elim (user_row v t) [
        | none ↦ none
        | some r ↦ some (if u == v then record r { presence = presence } else r)
      ])
unfolding set_presence user_row
user_row-set_presence u v presence b t = (
  record t {
    users = update (is_user u) (λ (r : UserRow). record r { presence = presence }) t.users;
  },
  refl,
  find-update_user u v presence t.users,
)

-- Where no statement fails, the key bundle that the relay hands out after a registration is the
-- registered one for that user, and the one before for any other.
pub get_key_bundle-register_user :
    {V : Type 0} (parse : String → V) (u v : String) (identity_key : Bytes)
    (signed_pre_key : String) (b : Bool) (t : Tables)
    → (t' : Tables) × (register_user u identity_key signed_pre_key (reliable b t)
        ≡ (ok tt, reliable b t'))
      × ((get_key_bundle parse v (reliable b t')).0 ≡ (
          if u == v
          then ok
              (some (record { identity_key = identity_key; signed_pre_key = parse signed_pre_key }))
          else (get_key_bundle parse v (reliable b t)).0))
unfolding get_key_bundle user_row
get_key_bundle-register_user parse u v ik spk b t =
    let (t', done, row) = user_row-register_user u v ik spk b t in
    (
      t',
      done,
      rw row (elim (Bool-cases (u == v)) [ inl same ↦ rw same refl | inr other ↦ rw other refl ]),
    )
