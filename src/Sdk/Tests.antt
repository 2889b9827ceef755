-- ===== src/Sdk/Tests.antt =====
-- A manifest that is accepted, and its sandbox.
use tintin.Prelude.{◌≡◌, ◌↔◌, refl, true, [], ◌∷◌, none, ok}
use tintin.Sdk.{
  MiniAppManifest, check, contains, known, from_manifest, default_entry, validate_manifest,
}
use tintin.Sdk.Validity.{IsValid, validate_manifest_iff, from_manifest-known}

abbrev weather : MiniAppManifest
weather = record {
  app_id = "com.weather";
  name = "Weather";
  version = "1.0";
  description = "";
  icon = "icon.png";
  entry = default_entry;
  permissions = "user.location" ∷ "network.request" ∷ [];
  size_bytes = 1048576;
  developer = none;
}

validate_manifest_iff_example : (validate_manifest weather ≡ ok tt) ↔ IsValid weather
validate_manifest_iff_example = validate_manifest_iff weather

from_manifest-known_example :
    (contains weather.permissions "user.location" ≡ true) × (contains known "user.location" ≡ true)
unfolding validate_manifest from_manifest contains check
from_manifest-known_example = from_manifest-known weather "/apps/weather" "user.location" refl refl
