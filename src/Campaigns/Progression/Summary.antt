-- ===== src/Campaigns/Progression/Summary.antt =====
-- The counts of a batch.
use email_outreach_platform.Base.{ℕ, ◌+◌, ◌≡◌, refl, ◌∙◌, List, [], ◌∷◌, arith, length}
use email_outreach_platform.Campaigns.Scheduling.{Zone, WindowSettings}
use email_outreach_platform.Campaigns.Progression.{
  Step, Progressable, ProgressionSummary, RowResult, was_advanced, was_completed, was_failed,
  was_skipped, count_row, ProgressionRepository, advance_row, advance_each, advance_batch,
}

-- The rows that a summary accounts for.
abbrev pub accounted : ProgressionSummary → ℕ
accounted s = s.advanced + s.completed + s.failed + s.skipped

count_row_lem :
    (r : RowResult) (s : ProgressionSummary)
    → (accounted (count_row r s) ≡ accounted s + 1)
      × ((count_row r s).fetched ≡ s.fetched)
      × (length (count_row r s).reasons + s.skipped ≡ length s.reasons + (count_row r s).skipped)
unfolding count_row
count_row_lem was_advanced s = (omega arith, refl, refl)
count_row_lem was_completed s = (omega arith, refl, refl)
count_row_lem was_failed s = (omega arith, refl, refl)
count_row_lem (was_skipped reason) s = (omega arith, refl, omega arith)

module _ {S : Type 0} (repo : ProgressionRepository S) (zone : Zone) (settings : WindowSettings)
    (steps : List Step) where
  advance_each-accounted :
      (rows : List Progressable) (summary : ProgressionSummary) (s : S)
      → (accounted (advance_each repo zone settings steps rows summary s).0
          ≡ accounted summary + length rows)
        × ((advance_each repo zone settings steps rows summary s).0.fetched ≡ summary.fetched)
        × (length (advance_each repo zone settings steps rows summary s).0.reasons + summary.skipped
            ≡ length summary.reasons
              + (advance_each repo zone settings steps rows summary s).0.skipped)
  unfolding advance_each
  advance_each-accounted [] summary s = (omega arith, refl, refl)
  advance_each-accounted (r ∷ rows) summary s =
      let one = advance_row repo zone settings steps r s in
      let rest = advance_each-accounted rows (count_row one.0 summary) one.1 in
      let own = count_row_lem one.0 summary in
      (omega (arith, rest.0, own.0), rest.1 ∙ own.1, omega (arith, rest.2, own.2))

  -- A batch accounts for every enrollment that it has fetched: each is advanced, completed, failed or
  -- skipped, once, and each skip has its reason, whatever the repository replies.
  pub advance_batch-accounted :
      (rows : List Progressable) (s : S)
      → (accounted (advance_batch repo zone settings steps rows s).0 ≡ length rows)
        × ((advance_batch repo zone settings steps rows s).0.fetched ≡ length rows)
        × (length (advance_batch repo zone settings steps rows s).0.reasons
            ≡ (advance_batch repo zone settings steps rows s).0.skipped)
  unfolding advance_batch
  advance_batch-accounted rows s =
      let all = advance_each-accounted rows _ s in
      (omega (arith, all.0), all.1, omega (arith, all.2))
