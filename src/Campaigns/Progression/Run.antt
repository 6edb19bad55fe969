-- ===== src/Campaigns/Progression/Run.antt =====
-- What a batch does, as the outcomes of its enrollments one after the other.
use email_outreach_platform.Base.{ℕ, ◌+◌, ◌≡◌, refl, ◌∙◌, none, List, [], ◌∷◌, arith, length}
use email_outreach_platform.Campaigns.Scheduling.{Zone, WindowSettings}
use email_outreach_platform.Campaigns.Progression.{
  Step, Progressable, SkipReason, ProgressionSummary, RowResult, was_advanced, was_completed,
  was_failed, was_skipped, count_row, ProgressionRepository, advance_row, advance_each,
  advance_batch,
}
use email_outreach_platform.Campaigns.Progression.Outcome.{RowOutcome, advance_row-Outcome}
use email_outreach_platform.Campaigns.Progression.Summary.{advance_batch-accounted}

abbrev one_advanced : RowResult → ℕ
one_advanced was_advanced = 1
one_advanced _ = 0

abbrev one_completed : RowResult → ℕ
one_completed was_completed = 1
one_completed _ = 0

abbrev one_failed : RowResult → ℕ
one_failed was_failed = 1
one_failed _ = 0

abbrev total : (RowResult → ℕ) → List RowResult → ℕ
total one [] = 0
total one (r ∷ results) = one r + total one results

-- The reasons of the skipped ones on top of others, the latest first.
abbrev reasons_onto : List RowResult → List SkipReason → List SkipReason
reasons_onto [] reasons = reasons
reasons_onto (was_skipped reason ∷ results) reasons = reasons_onto results (reason ∷ reasons)
reasons_onto (_ ∷ results) reasons = reasons_onto results reasons

-- A summary counts the results that have come on top of another summary.
pub record Tallies (before : ProgressionSummary) (results : List RowResult)
    (after : ProgressionSummary) : Type 0 where
  pub advanced_more : after.advanced ≡ before.advanced + total one_advanced results
  pub completed_more : after.completed ≡ before.completed + total one_completed results
  pub failed_more : after.failed ≡ before.failed + total one_failed results
  pub reasons_more : after.reasons ≡ reasons_onto results before.reasons

count_row-Tallies :
    (r : RowResult) (s : ProgressionSummary)
    → ((count_row r s).advanced ≡ s.advanced + one_advanced r)
      × ((count_row r s).completed ≡ s.completed + one_completed r)
      × ((count_row r s).failed ≡ s.failed + one_failed r)
unfolding count_row
count_row-Tallies was_advanced s = (refl, omega arith, omega arith)
count_row-Tallies was_completed s = (omega arith, refl, omega arith)
count_row-Tallies was_failed s = (omega arith, omega arith, refl)
count_row-Tallies (was_skipped reason) s = (omega arith, omega arith, omega arith)

reasons_lem :
    (r : RowResult) (results : List RowResult) (s : ProgressionSummary)
    → reasons_onto results (count_row r s).reasons ≡ reasons_onto (r ∷ results) s.reasons
unfolding count_row
reasons_lem was_advanced results s = refl
reasons_lem was_completed results s = refl
reasons_lem was_failed results s = refl
reasons_lem (was_skipped reason) results s = refl

Tallies-more :
    (before : ProgressionSummary) (r : RowResult) (results : List RowResult)
    (after : ProgressionSummary)
    → Tallies (count_row r before) results after
    → Tallies before (r ∷ results) after
Tallies-more before r results after t =
    let (a, c, f) = count_row-Tallies r before in
    record {
      advanced_more = omega (arith, a, t.advanced_more);
      completed_more = omega (arith, c, t.completed_more);
      failed_more = omega (arith, f, t.failed_more);
      reasons_more = t.reasons_more ∙ reasons_lem r results before;
    }

abbrev pub no_counts : ProgressionSummary
no_counts = record {
  fetched = 0;
  advanced = 0;
  completed = 0;
  failed = 0;
  skipped = 0;
  last_enrollment_id = none;
  reasons = [];
}

module _ {S : Type 0} (repo : ProgressionRepository S) (zone : Zone) (settings : WindowSettings)
    (steps : List Step) where
  -- The enrollments in order, each with its outcome on the tables that the ones before have left.
  abbrev pub Run : List Progressable → S → List RowResult → S → Type 0
  Run [] s [] after = after ≡ s
  Run (r ∷ rows) s (o ∷ results) after =
      (next : S) × RowOutcome repo zone settings steps r s (o, next) × Run rows next results after
  Run _ s _ after = ⊥

  each-Run :
      (rows : List Progressable) (summary : ProgressionSummary) (s : S)
      → (results : List RowResult) × Run rows s results
          (advance_each repo zone settings steps rows summary s).1
        × Tallies summary results (advance_each repo zone settings steps rows summary s).0
  unfolding advance_each
  each-Run [] summary s = (
    [],
    refl,
    record {
      advanced_more = omega arith;
      completed_more = omega arith;
      failed_more = omega arith;
      reasons_more = refl;
    },
  )
  each-Run (r ∷ rows) summary s =
      let one = advance_row repo zone settings steps r s in
      let (results, run, t) = each-Run rows (count_row one.0 summary) one.1 in
      (
        one.0 ∷ results,
        (one.1, advance_row-Outcome repo zone settings steps r s, run),
        Tallies-more summary one.0 results _ t,
      )

  -- A batch takes the enrollments in order, each on the tables that the ones before have left: one
  -- whose step is unknown is skipped; one whose email failed is failed; one without an email after its
  -- step is completed; one with a next email is skipped when its address is suppressed, it has no
  -- sender, or there is no sending window, and else it gets the message and is advanced; and where
  -- the guard of a write hits no row, it is skipped. The summary counts these results and lists the
  -- reasons of the skipped ones, which are the enrollments that are left.
  pub advance_batch-Run :
      (rows : List Progressable) (s : S)
      → (results : List RowResult) × Run rows s results
          (advance_batch repo zone settings steps rows s).1
        × Tallies no_counts results (advance_batch repo zone settings steps rows s).0
        × ((advance_batch repo zone settings steps rows s).0.advanced
              + (advance_batch repo zone settings steps rows s).0.completed
              + (advance_batch repo zone settings steps rows s).0.failed
              + (advance_batch repo zone settings steps rows s).0.skipped
            ≡ length rows)
        × (length (advance_batch repo zone settings steps rows s).0.reasons
            ≡ (advance_batch repo zone settings steps rows s).0.skipped)
  unfolding advance_batch
  advance_batch-Run rows s =
      let (results, run, t) = each-Run rows _ s in
      let counts = advance_batch-accounted repo zone settings steps rows s in
      (
        results,
        run,
        record {
          advanced_more = t.advanced_more;
          completed_more = t.completed_more;
          failed_more = t.failed_more;
          reasons_more = t.reasons_more;
        },
        counts.0,
        counts.2,
      )
