-- ===== src/Core/Error.antt =====
-- tintin-core/src/error.rs
use tintin.Prelude.{String}

pub data TinTinError : Type 0 where
  encryption_failed decryption_failed invalid_key invalid_message : String → TinTinError
  session_not_found invalid_session_state protocol_version_mismatch : TinTinError
  serialization_error key_agreement_failed : String → TinTinError
