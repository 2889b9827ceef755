-- ===== src/Sdk.antt =====
-- tintin-sdk/src/lib.rs: the manifest of a mini-app, its permissions and its sandbox. `V` is the type of JSON
-- values.
pub mod Validity
mod Tests
use tintin.Prelude.{
  ℕ, ◌*◌, Bool, true, false, ◌||◌, String, List, [], ◌∷◌, ◌++◌, map, Option, none, some, Result, ok,
  err, ltb, ◌==◌, text_eq, if◌then◌else◌,
}
use tintin.Prelude.Rows.{exists}
use tintin.Prelude.Rows.Order.{order_by}
use tintin.Prelude.Texts.{join, is_empty}
use tintin.Server.Db.{text_le}

pub record DeveloperInfo : Type 0 where
  pub name : String
  pub website : String

pub record MiniAppManifest : Type 0 where
  pub app_id : String
  pub name : String
  pub version : String
  pub description : String
  pub icon : String
  pub entry : String
  pub permissions : List String
  pub size_bytes : ℕ
  pub developer : Option DeveloperInfo

abbrev pub default_entry : String
default_entry = "index.html"

-- `permissions::PROFILE_READ` and the others
abbrev pub known : List String
known =
    "user.profile.read" ∷ "user.location" ∷ "message.send" ∷ "media.camera" ∷ "media.gallery"
    ∷ "network.request" ∷ []

-- A set of texts, as a list in the order of insertion.
pub record PermissionSet : Type 0 where
  pub granted : List String

abbrev pub no_permissions : PermissionSet
no_permissions = record { granted = [] }

unfoldable pub contains : List String → String → Bool
unfolding exists
contains items item = exists (λ x. x == item) items

unfoldable pub grant : PermissionSet → String → PermissionSet
unfolding contains
grant set perm =
    if contains set.granted perm then set else record { granted = set.granted ++ perm ∷ [] }

unfoldable pub check : PermissionSet → String → Bool
unfolding contains
check set perm = contains set.granted perm

unfoldable pub list : PermissionSet → List String
unfolding order_by
list set = order_by text_le set.granted

pub record JsBridgeRequest (V : Type 0) : Type 0 where
  pub id : String
  pub method : String
  pub params : V

pub record JsBridgeResponse (V : Type 0) : Type 0 where
  pub id : String
  pub result : V

-- `code` is an i32.
pub record JsError (Code : Type 0) : Type 0 where
  pub code : Code
  pub message : String

pub record JsBridgeError (Code : Type 0) : Type 0 where
  pub id : String
  pub error : JsError Code

pub data JsBridgeOutcome (V Code : Type 0) : Type 0 where
  success : JsBridgeResponse V → JsBridgeOutcome V Code
  error : JsBridgeError Code → JsBridgeOutcome V Code

pub record UserProfile : Type 0 where
  pub id : String
  pub display_name : String
  pub avatar_url : String
  pub language : String

pub record SandboxConfig : Type 0 where
  pub app_dir : String
  pub permissions : PermissionSet
  pub storage_quota : ℕ
  pub allowed_domains : List String

abbrev pub default_config : SandboxConfig
default_config = record {
  app_dir = "";
  permissions = no_permissions;
  storage_quota = 10 * 1024 * 1024;
  allowed_domains = [];
}

-- the loop over the permissions of the manifest
unfoldable pub grant_all : PermissionSet → List String → PermissionSet
unfolding grant
grant_all set [] = set
grant_all set (p ∷ ps) = grant_all (grant set p) ps

unfoldable pub from_manifest : MiniAppManifest → String → SandboxConfig
unfolding grant_all
from_manifest manifest app_dir = record default_config {
  app_dir = app_dir;
  permissions = grant_all no_permissions manifest.permissions;
}

pub data PackageError : Type 0 where
  invalid_manifest : String → PackageError
  missing_entry icon_too_large package_too_large : PackageError
  permission_not_recognized : String → PackageError

unfoldable pub fmt : PackageError → String
unfolding join
fmt (invalid_manifest s) = join "invalid manifest: " s
fmt missing_entry = "entry file not found in package"
fmt icon_too_large = "icon exceeds maximum size"
fmt package_too_large = "package exceeds 5 MB limit"
fmt (permission_not_recognized p) = join "unknown permission: " p

-- the loop over the permissions
unfoldable pub validate_permissions : List String → Result PackageError (Unit {0})
unfolding contains
validate_permissions [] = ok tt
validate_permissions (p ∷ ps) =
    let rest = validate_permissions ps in
    if contains known p then rest else err (permission_not_recognized p)

unfoldable pub validate_manifest : MiniAppManifest → Result PackageError (Unit {0})
unfolding validate_permissions
validate_manifest manifest =
    if is_empty manifest.app_id
    then err (invalid_manifest "app_id is required")
    else if is_empty manifest.name
    then err (invalid_manifest "name is required")
    else if is_empty manifest.version
    then err (invalid_manifest "version is required")
    else if is_empty manifest.icon
    then err (invalid_manifest "icon is required")
    else if is_empty manifest.entry
    then err (invalid_manifest "entry is required")
    else if ltb (5 * 1024 * 1024) manifest.size_bytes
    then err package_too_large
    else validate_permissions manifest.permissions
