-- ===== src/Security/Error.antt =====
-- The error codes of crates/oan-service-security/src/lib.rs, a constructor for each text that
-- `SecurityError::code` is given.
pub data SecurityError : Type 0 where
  missing_verification_method : SecurityError
  trusted_upstream_signature_missing : SecurityError
  trusted_upstream_method_mismatch : SecurityError
  trusted_upstream_path_mismatch : SecurityError
  trusted_upstream_purpose_mismatch : SecurityError
  trusted_upstream_audience_mismatch : SecurityError
  trusted_upstream_timestamp_stale : SecurityError
  trusted_upstream_nonce_replayed : SecurityError
  trusted_upstream_key_invalid : SecurityError
  trusted_upstream_signature_invalid : SecurityError
  trusted_upstream_suite_invalid : SecurityError
  trusted_upstream_body_hash_invalid : SecurityError
  trusted_upstream_body_hash_mismatch : SecurityError
  invalid_nonce_store : SecurityError
  invalid_proof_hash : SecurityError
  controller_authorization_resource_mismatch : SecurityError
  controller_authorization_controller_mismatch : SecurityError
  controller_authorization_publisher_mismatch : SecurityError
  controller_authorization_did_document_hash_mismatch : SecurityError
  controller_authorization_metadata_hash_mismatch : SecurityError
  controller_authorization_registrar_mismatch : SecurityError
  controller_authorization_purpose_mismatch : SecurityError
  controller_authorization_nonce_missing : SecurityError
  controller_authorization_time_window_invalid : SecurityError
  controller_authorization_challenge_not_yet_valid : SecurityError
  controller_authorization_challenge_expired : SecurityError
  controller_authorization_did_document_id_mismatch : SecurityError
  controller_authorization_did_document_invalid : SecurityError
  controller_authorization_private_key_material : SecurityError
  controller_authorization_method_controller_mismatch : SecurityError
  controller_authorization_proof_invalid : SecurityError
  controller_authorization_proof_purpose_mismatch : SecurityError
  controller_authorization_proof_creator_mismatch : SecurityError
  controller_authorization_verification_method_mismatch : SecurityError
  subject_control_subject_mismatch : SecurityError
  subject_control_did_document_hash_mismatch : SecurityError
  subject_control_registrar_mismatch : SecurityError
  subject_control_purpose_mismatch : SecurityError
  subject_control_challenge_expired : SecurityError
  subject_control_proof_invalid : SecurityError
  subject_control_verification_method_mismatch : SecurityError
  admin_auth_required : SecurityError
  admin_auth_invalid : SecurityError
  registration_binding_invalid : SecurityError
