-- ===== src/Sending/Service/Attachments.antt =====
-- `_load_attachments` of backend/app/modules/sending/service.py.
use email_outreach_platform.Base.{
  ℕ, Bool, not, ◌&&◌, Option, none, some, List, [], ◌∷◌, ◌==◌, if◌then◌else◌, length, text_eq,
}
use email_outreach_platform.Sending.Context.{
  MessageStatus, retry_scheduled, other, LoadedSendContext,
}
use email_outreach_platform.Sending.Gates.{is_campaign}
use email_outreach_platform.Sending.RetryPolicy.{other}
use email_outreach_platform.Sending.Store.{
  ErrorCode, attachment_missing, attachment_storage_unavailable, attachment_unreadable,
  attachment_corrupt, storage_unavailable,
}
use email_outreach_platform.Sending.Session.{
  CredentialFailure, Failure, credential_failure, Result, ok, err, M, ◌>>=◌, ◌>>◌, pure, query,
  commit,
}
use email_outreach_platform.Sending.Environment.{
  AttachmentRow, EnvelopeAttachment, Download, bytes, object_missing, storage_down, storage_error,
  Environment,
}

abbrev attachment_failure : ErrorCode → Failure
attachment_failure code = credential_failure (record {
  error_category = other "CONFIGURATION_FAILURE";
  error_code = code;
  message_status = MessageStatus.failed;
  hold_reason = none;
})

abbrev pub storage_failure : CredentialFailure
storage_failure = record {
  error_category = other "TRANSIENT_FAILURE";
  error_code = attachment_storage_unavailable;
  message_status = retry_scheduled;
  hold_reason = some storage_unavailable;
}

module _ (env : Environment) where
  matches_row : AttachmentRow → List ℕ → Bool
  matches_row row content =
      length content == row.size_bytes && text_eq (env.sha256_file content) row.sha256

  loaded_attachment : AttachmentRow → List ℕ → EnvelopeAttachment
  loaded_attachment row content = record {
    filename = row.filename;
    content_type = row.content_type;
    content = content;
    content_id = if row.is_inline then row.content_id else none;
  }

  -- One row of the loop: the exception, or the attachment.
  load_one : AttachmentRow → Download → Result EnvelopeAttachment
  unfolding matches_row loaded_attachment
  load_one row object_missing = err (attachment_failure attachment_missing)
  load_one row storage_down = err (credential_failure storage_failure)
  load_one row storage_error = err (attachment_failure attachment_unreadable)
  load_one row (bytes content) =
      if matches_row row content
      then ok (loaded_attachment row content)
      else err (attachment_failure attachment_corrupt)

  cons_result :
      Result EnvelopeAttachment
      → Result (List EnvelopeAttachment)
      → Result (List EnvelopeAttachment)
  cons_result (err e) rest = err e
  cons_result (ok a) (err e) = err e
  cons_result (ok a) (ok rest) = ok (a ∷ rest)

  -- The loop over the rows stops at the first exception.
  unfoldable pub load_rows : List AttachmentRow → Result (List EnvelopeAttachment)
  unfolding load_one cons_result
  load_rows [] = ok []
  load_rows (row ∷ rows) =
      cons_result (load_one row (env.download row.storage_key)) (load_rows rows)

  of_result : Result (List EnvelopeAttachment) → M (List EnvelopeAttachment)
  of_result r w = (r, w)

  step_files : Option ℕ → M (List EnvelopeAttachment)
  unfolding of_result
  step_files none = pure []
  step_files (some step) = do
    rows ← query (λ db. env.step_attachments step)
    commit
    of_result (load_rows rows)

  unfoldable pub load_attachments : LoadedSendContext → M (List EnvelopeAttachment)
  unfolding step_files
  load_attachments ctx =
      if not (is_campaign ctx.purpose) then pure [] else step_files ctx.raw.step_id
