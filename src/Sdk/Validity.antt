-- ===== src/Sdk/Validity.antt =====
-- What a valid manifest is, and what its sandbox grants.
use tintin.Prelude.{
  ◌≤◌, ◌≡◌, ◌↔◌, refl, sym, ◌∙◌, Bool, true, false, ◌||◌, String, List, [], ◌∷◌, ◌++◌, ok, arith,
  ltb, ◌==◌, text_eq, Every, Bool-cases, inl, inr,
}
use mathlib.Core.Path.{subst}
use text.Mathlib.TextEquality.{eq_iff}
use tintin.Prelude.Rows.{exists}
use tintin.Prelude.Rows.Laws.{exists-append}
use tintin.Prelude.Texts.{is_empty}
use tintin.Sdk.{
  MiniAppManifest, PermissionSet, known, contains, grant, grant_all, check, from_manifest,
  no_permissions, validate_permissions, validate_manifest,
}

-- The fields that a package must have, its size, and that it asks for known permissions only.
pub record IsValid (m : MiniAppManifest) : Type 0 where
  pub has_id : is_empty m.app_id ≡ false
  pub has_name : is_empty m.name ≡ false
  pub has_version : is_empty m.version ≡ false
  pub has_icon : is_empty m.icon ≡ false
  pub has_entry : is_empty m.entry ≡ false
  pub is_small : m.size_bytes ≤ 5242880
  pub knows : Every (λ p. contains known p ≡ true) m.permissions

validate_permissions_iff :
    (ps : List String) → (validate_permissions ps ≡ ok tt) ↔ Every (λ p. contains known p ≡ true) ps
unfolding validate_permissions
validate_permissions_iff [] = (λ _. tt, λ _. refl)
validate_permissions_iff (p ∷ ps) = elim (Bool-cases (contains known p)) [
  | inl there ↦ (
    λ h. (there, (validate_permissions_iff ps).0 (rw there at h)),
    λ h. rw there ((validate_permissions_iff ps).1 h.1),
  )
  | inr unknown ↦ (λ h. absurd (ground arith), λ h. absurd (ground arith))
]

clash : {A : Type 0} {b : Bool} → b ≡ true → b ≡ false → A
clash e h = absurd (ground (e, h, arith))

-- `validate_manifest` accepts exactly the valid manifests: those with an id, a name, a version, an
-- icon and an entry, of at most 5 MB, that ask for known permissions only.
pub validate_manifest_iff : (m : MiniAppManifest) → (validate_manifest m ≡ ok tt) ↔ IsValid m
unfolding validate_manifest
validate_manifest_iff m = elim (Bool-cases (is_empty m.app_id)) [
  | inl e ↦ rw e (λ h. cc, λ v. clash e v.has_id)
  | inr id ↦ elim (Bool-cases (is_empty m.name)) [
    | inl e ↦ rw id (rw e (λ h. cc, λ v. clash e v.has_name))
    | inr name ↦ elim (Bool-cases (is_empty m.version)) [
      | inl e ↦ rw id (rw name (rw e (λ h. cc, λ v. clash e v.has_version)))
      | inr version ↦ elim (Bool-cases (is_empty m.icon)) [
        | inl e ↦ rw id (rw name (rw version (rw e (λ h. cc, λ v. clash e v.has_icon))))
        | inr icon ↦ elim (Bool-cases (is_empty m.entry)) [
          | inl e ↦
              rw id (rw name (rw version (rw icon (rw e (λ h. cc, λ v. clash e v.has_entry)))))
          | inr entry ↦ elim (Bool-cases (ltb 5242880 m.size_bytes)) [
            | inl e ↦ rw id (
                rw name (
                  rw version (
                    rw icon
                      (rw entry (rw e (λ h. cc, λ v. clash e (ground (v.is_small, arith))))))))
            | inr small ↦ rw id (
                rw name (
                  rw version (
                    rw icon (
                      rw entry (
                        rw small (
                          λ h. record {
                            has_id = id;
                            has_name = name;
                            has_version = version;
                            has_icon = icon;
                            has_entry = entry;
                            is_small = ground arith;
                            knows = (validate_permissions_iff m.permissions).0 h;
                          },
                          λ v. (validate_permissions_iff m.permissions).1 v.knows,
                        ))))))
          ]
        ]
      ]
    ]
  ]
]

contains-append :
    (items : List String) (p q : String)
    → contains (items ++ p ∷ []) q ≡ (contains items q || p == q)
unfolding contains exists
contains-append items p q = exists-append (λ x. x == q) items (p ∷ []) ∙ ground arith

check-grant : (set : PermissionSet) (p q : String) → check (grant set p) q ≡ (check set q || p == q)
unfolding check grant
check-grant set p q = elim (Bool-cases (contains set.granted p)) [
  | inl there ↦ rw there (elim (Bool-cases (p == q)) [
    | inl e ↦ rw e (
        subst (λ (t : String). contains set.granted t ≡ (contains set.granted t || true))
          ((eq_iff p q).0 e) (rw there refl))
    | inr e ↦ rw e (ground arith)
  ])
  | inr absent ↦ rw absent (contains-append set.granted p q)
]

check-grant_all :
    (ps : List String) (set : PermissionSet) (q : String)
    → check (grant_all set ps) q ≡ (check set q || contains ps q)
unfolding grant_all contains exists
check-grant_all [] set q = ground arith
check-grant_all (p ∷ ps) set q =
    ground (arith, check-grant_all ps (grant set p) q, check-grant set p q)

asked_known :
    (ps : List String) (q : String)
    → Every (λ p. contains known p ≡ true) ps
    → contains ps q ≡ true
    → contains known q ≡ true
unfolding contains exists
asked_known [] q h e = cc
asked_known (p ∷ ps) q h e = elim (Bool-cases (p == q)) [
  | inl same ↦ subst (λ (t : String). contains known t ≡ true) ((eq_iff p q).0 same) h.0
  | inr other ↦ asked_known ps q h.1 (rw other at e)
]

-- The sandbox of a manifest grants exactly the permissions that the manifest asks for.
pub check-from_manifest :
    (m : MiniAppManifest) (app_dir q : String)
    → check (from_manifest m app_dir).permissions q ≡ contains m.permissions q
unfolding from_manifest check contains exists
check-from_manifest m app_dir q = check-grant_all m.permissions no_permissions q

-- Where a manifest was accepted, every permission that its sandbox grants is one that the manifest
-- asks for and one of the known ones.
pub from_manifest-known :
    (m : MiniAppManifest) (app_dir q : String)
    → validate_manifest m ≡ ok tt
    → check (from_manifest m app_dir).permissions q ≡ true
    → (contains m.permissions q ≡ true) × (contains known q ≡ true)
from_manifest-known m app_dir q accepted granted =
    let asked = sym (check-from_manifest m app_dir q) ∙ granted in
    (asked, asked_known m.permissions q ((validate_manifest_iff m).0 accepted).knows asked)
