-- ===== src/Sending/Service/StorageDown.antt =====
-- A task whose files cannot be loaded because object storage is down.
use email_outreach_platform.Base.{ℕ, ◌≡◌, refl, true, some, List, ◌∷◌}
use email_outreach_platform.Sending.Context.{LoadedSendContext}
use email_outreach_platform.Sending.Gates.{is_campaign}
use email_outreach_platform.Sending.Repository.{category_allowed}
use email_outreach_platform.Sending.Repository.Writes.{finalize_attempt_result}
use email_outreach_platform.Sending.Session.{integrity_error, ok, err, World, write_or}
use email_outreach_platform.Sending.Environment.{
  Credential, AttachmentRow, storage_down, Environment,
}
use email_outreach_platform.Sending.Service.Finalize.{store, finalize_not_invoked}
use email_outreach_platform.Sending.Service.Attachments.{load_rows, load_attachments}
use email_outreach_platform.Sending.Service.Delivery.{not_sent, with_attachments, with_credential}

module _ (env : Environment) (ctx : LoadedSendContext) (aid : ℕ) where
  -- When storage is down for the first file of a campaign message's step, the task ends with an
  -- integrity error: what stands committed are the tables as the task had them before the failure was
  -- stored, and no call of the provider is made.
  pub storage_down_lem :
      (credential : Credential) (generation step : ℕ) (row : AttachmentRow)
      (rows : List AttachmentRow) (w : World)
      → is_campaign ctx.purpose ≡ true
      → ctx.raw.step_id ≡ some step
      → env.step_attachments step ≡ row ∷ rows
      → env.download row.storage_key ≡ storage_down
      → ((with_credential env ctx aid (ok (credential, generation)) w).0 ≡ err integrity_error)
        × ((with_credential env ctx aid (ok (credential, generation)) w).1.db ≡ w.work)
        × ((with_credential env ctx aid (ok (credential, generation)) w).1.events ≡ w.events)
  unfolding with_credential with_attachments load_attachments load_rows not_sent
      finalize_not_invoked store write_or finalize_attempt_result category_allowed
  storage_down_lem credential generation step row rows w c s files down =
      rw (c, s, files, down) (refl, refl, refl)
