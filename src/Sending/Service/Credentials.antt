-- ===== src/Sending/Service/Credentials.antt =====
-- `_load_and_refresh_credential` of backend/app/modules/sending/service.py.
use email_outreach_platform.Base.{
  ℕ, ◌+◌, ◌*◌, Bool, false, ◌&&◌, Option, none, some, List, [], ◌∷◌, leb, if◌then◌else◌, get_or,
  second, Text, codes, text_eq, is_present,
}
use email_outreach_platform.Sending.Context.{
  MessageStatus, retry_scheduled, other, connected, reconnect_required, healthy, degraded,
  LoadedSendContext,
}
use email_outreach_platform.Sending.RetryPolicy.{auth_failure, known, other}
use email_outreach_platform.Sending.Store.{
  ErrorCode, credentials_missing, credential_decrypt_failed, refresh_token_unavailable,
  refresh_failed, mailbox_reauth_required, Connection,
}
use email_outreach_platform.Sending.Repository.Writes.{
  update_mailbox_connection_state, get_mailbox_connection, insert_mailbox_connection,
}
use email_outreach_platform.Sending.Session.{
  Failure, credential_failure, M, ◌>>=◌, ◌>>◌, pure, raise, query, write,
}
use email_outreach_platform.Sending.Environment.{Credential, TokenRefreshResult, Environment}

-- Python's dict over texts: `get`, and assignment to a key.
unfoldable pub lookup : Text → List (Text × Text) → Option Text
lookup k [] = none
lookup k ((j, v) ∷ d) = if text_eq j k then some v else lookup k d

unfoldable pub put : Text → Text → List (Text × Text) → List (Text × Text)
put k v [] = (k, v) ∷ []
put k v ((j, w) ∷ d) = if text_eq j k then (k, v) ∷ d else (j, w) ∷ put k v d

-- `dict.update`
unfoldable pub overlay : List (Text × Text) → List (Text × Text) → List (Text × Text)
unfolding put
overlay d [] = d
overlay d ((k, v) ∷ e) = overlay (put k v d) e

abbrev configuration_failure : ErrorCode → Failure
configuration_failure code = credential_failure (record {
  error_category = other "CONFIGURATION_FAILURE";
  error_code = code;
  message_status = MessageStatus.failed;
  hold_reason = none;
})

abbrev reauthorization_failure : ErrorCode → Failure
reauthorization_failure code = credential_failure (record {
  error_category = known auth_failure;
  error_code = code;
  message_status = retry_scheduled;
  hold_reason = some mailbox_reauth_required;
})

-- CREDENTIAL_REFRESH_SAFETY_MARGIN
abbrev refresh_margin : ℕ
refresh_margin = 5 * 60 * second

is_expiring : ℕ → Option ℕ → Bool
is_expiring now none = false
is_expiring now (some expires_at) = leb expires_at (now + refresh_margin)

module _ (env : Environment) (ctx : LoadedSendContext) where
  -- The mailbox needs a person: marked, and the send fails.
  needs_reconnect : ℕ → ErrorCode → M (Credential × ℕ)
  needs_reconnect generation code = do
    write (λ db.
        update_mailbox_connection_state db ctx.workspace_id ctx.mailbox_id reconnect_required
          degraded none generation)
    raise (reauthorization_failure code)

  refreshed_credential : Credential → Text → TokenRefreshResult → Credential
  refreshed_credential creds old r =
      (codes "access_token", r.access_token)
      ∷ (
        codes "refresh_token",
        (if is_present r.refresh_token then get_or old r.refresh_token else old),
      )
      ∷ (codes "token_type", r.token_type)
      ∷ []

  -- The refreshed tokens become a new connection generation.
  rotate : Credential → Credential → ℕ → Text → Option TokenRefreshResult → M (Credential × ℕ)
  unfolding refreshed_credential
  rotate creds credential generation old none = needs_reconnect generation refresh_failed
  rotate creds credential generation old (some r) = do
    write (λ db. insert_mailbox_connection db (record {
      workspace_id = ctx.workspace_id;
      mailbox_id = ctx.mailbox_id;
      generation = generation + 1;
      credential = some (env.encrypt (refreshed_credential creds old r));
      protected_config = [];
      expires_at = some (env.refresh_clock + r.expires_in * second);
      is_destroyed = false;
    }))
    write (λ db.
        update_mailbox_connection_state db ctx.workspace_id ctx.mailbox_id connected healthy
          (some (generation + 1)) (generation + 1))
    pure (put (codes "access_token") r.access_token credential, generation + 1)

  refresh_with : Credential → Credential → ℕ → Option Text → M (Credential × ℕ)
  unfolding rotate needs_reconnect
  refresh_with creds credential generation none =
      needs_reconnect generation refresh_token_unavailable
  refresh_with creds credential generation (some token) =
      if is_present (some token)
      then rotate creds credential generation token (env.refresh_token token)
      else needs_reconnect generation refresh_token_unavailable

  with_decrypted : Connection → ℕ → Option Credential → M (Credential × ℕ)
  unfolding refresh_with is_expiring
  with_decrypted conn generation none = raise (configuration_failure credential_decrypt_failed)
  with_decrypted conn generation (some creds) =
      if env.can_refresh ctx.mailbox_provider && is_expiring env.refresh_clock conn.expires_at
      then refresh_with creds (overlay creds conn.protected_config) generation
          (lookup (codes "refresh_token") creds)
      else pure (overlay creds conn.protected_config, generation)

  with_connection : ℕ → Option Connection → M (Credential × ℕ)
  unfolding with_decrypted
  with_connection generation none = raise (configuration_failure credentials_missing)
  with_connection generation (some conn) =
      if is_present conn.credential
      then with_decrypted conn generation (env.decrypt conn)
      else raise (configuration_failure credentials_missing)

  unfoldable pub load_and_refresh_credential : ℕ → M (Credential × ℕ)
  unfolding with_connection
  load_and_refresh_credential generation = do
    conn ← query (λ db. get_mailbox_connection db ctx.workspace_id ctx.mailbox_id generation)
    with_connection generation conn
