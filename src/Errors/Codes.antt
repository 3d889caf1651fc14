-- ===== src/Errors/Codes.antt =====
-- The message codes of internal/foundation/i18n/generated.go that the modelled services use.
pub data Code : Type 0 where
  config_load_failed config_validation_failed : Code
  unauthenticated forbidden_action organization_not_found invalid_credentials : Code
  invalid_reset_token invalid_totp totp_required totp_locked setup_completed : Code
  invitation_exists invitation_invalid sso_provider_not_found sso_cache_required : Code
  sso_invalid_state sso_login_failed : Code
  email_not_configured server_internal_error : Code
  https_required csrf_failed validation_failed workers_session_cleanup : Code
  session_get_session session_create_session session_revoke_session : Code
  session_revoke_sessions_for_user session_find_organization : Code
  login_find_user login_find_account login_find_organization login_list_organizations : Code
  login_generate_token login_sso_start login_sso_callback : Code
  logout_publish_event : Code
  setup_begin_tx setup_create_first_user setup_rollback setup_commit setup_count_users : Code
  setup_insert_user setup_insert_account setup_insert_organization : Code
  setup_insert_organization_member : Code
  password_reset_find_user password_reset_generate_token : Code
  password_reset_create_verification_token password_reset_send_email : Code
  password_reset_find_verification_token password_reset_password_hash : Code
  password_reset_consume_verification_token : Code
  totp_enroll totp_confirm totp_disable : Code
  invitation_find_organization invitation_find_user invitation_find_invitation : Code
  invitation_generate_token invitation_create_invitation invitation_send_email : Code
  invitation_begin_tx invitation_rollback invitation_password_hash : Code
  invitation_update_email_verified invitation_accept invitation_find_account : Code
  invitation_consume_invitation invitation_commit : Code
  email_invitation_subject email_invitation_heading email_invitation_body : Code
  email_invitation_cta email_password_reset_subject email_password_reset_heading : Code
  email_password_reset_body email_password_reset_cta email_footer : Code
