-- ===== src/Tests/Pipeline.antt =====
-- A screening at work: an opportunity whose company has a resolved founder, with a deck.
use dolphin_vc.Opportunities.Commands.{has_id}
use dolphin_vc.Jobs.Worker.{step_taken}
use dolphin_vc.Pipeline.Rerun.{rerun_stays_running}
use dolphin_vc.Base.{◌==◌, update_where, ltb, ◌+◌, ◌*◌, length, leb}
use dolphin_vc.Scoring.Recommendation.{Floats}
use dolphin_vc.Errors.{err, refused_flush}
use dolphin_vc.Base.{◌⊎◌}
use dolphin_vc.Pipeline.Finish.{process_job_ends}
use dolphin_vc.Jobs.Queue.{job_is}
use dolphin_vc.Pipeline.Verdict.{screening_invests, screening-pass_iff}
use dolphin_vc.Tests.Screening.{deal, acme}
use dolphin_vc.Tests.Extraction.{found, arr, document, ingest}
use dolphin_vc.Session.{connect, Conn, pure, request, Tx}
use dolphin_vc.Pipeline.Axes.{best, score_axes, founder_scores_of, axis_drafts}
use dolphin_vc.Records.{
  Company, Opportunity, Claim, OpportunityScore, JobResult, screened, empty_db, Job, FounderScore,
  Db, Affiliation,
}
use dolphin_vc.Pipeline.Versions.{UniqueVersions}
use dolphin_vc.Pipeline.Screen.{is_critical, verdict, ScreenTools, ScreenDraw}
use dolphin_vc.Pipeline.Process.{process_job}
use dolphin_vc.Pipeline.Bounds.{OnScale, axis_drafts-InRange, InRange}
use dolphin_vc.Errors.{err, ok, Result, AppError}
use dolphin_vc.Base.{
  find_where, ◌↔◌, any_where, select_where, ◌/◌, ◌+◌, map, count_where, ℕ, ◌≡◌, refl, ◌≤◌, arith,
  String, true, false, none, some, Option, List, [], ◌∷◌, All,
}
use dolphin_vc.Types.{ClaimCategory, invest, pass, watchlist, TrendKind, JobStatus}

abbrev score : FounderScore
score = record {
  person_id = 9;
  score = 800;
  ci_low = 700;
  ci_high = 900;
  confidence = 700;
  cold_start = false;
  trend = TrendKind.stable;
  version = 1;
}

abbrev founder : Affiliation
founder = record {
  person_id = 9;
  company_id = 10;
  role = "founder";
  is_founder = true;
  confidence = 900;
}

abbrev pub job : Job
job = record {
  id = 50;
  org_id = some 7;
  kind = "screen";
  status = JobStatus.queued;
  target_type = some "opportunity";
  target_id = some 11;
  idempotency_key = some "k";
  progress = 0;
  current_step = none;
  input = record {
    opportunity_id = none;
    application_id = none;
    document_id = some 5;
    retry_of = none;
    signal_id = none;
    is_public = none;
    query = none;
    limit = none;
    channels = none;
    memo_id = none;
    section = none;
    format = none;
  };
  result = none;
  error_code = none;
  error_message = none;
  attempts = 0;
  started_at = none;
  finished_at = none;
  heartbeat_at = none;
  created_at = 0;
}

abbrev pub db : Db
db = record empty_db {
  companies = acme ∷ [];
  opportunities = deal ∷ [];
  founder_scores = score ∷ [];
  affiliations = founder ∷ [];
  documents = document ∷ [];
  jobs = job ∷ [];
}

abbrev list_sum : List ℕ → ℕ
list_sum [] = 0
list_sum (x ∷ l) = x + list_sum l

-- Tests that are made without rounding.
abbrev exact : Floats
exact = record {
  mean_clears = λ l. leb (550 * length l) (list_sum l);
  mean_is_thin = λ l. ltb (list_sum l) (400 * length l);
  is_wide = λ high low. ltb (low + 3000) high;
}

abbrev pub tools : ScreenTools (List String)
tools = record {
  ingest = ingest;
  casefold = λ s. s;
  round = λ n d. n / d;
  show_id = λ n. "n";
  fixed_two = λ n. "n";
  title = λ s. s;
  extracted = λ n. "n claims";
  floats = exact;
}

abbrev pub draw : ScreenDraw
draw = record { clock = λ n. 100 + n; first_id = 40; memo_id = 60 }

abbrev pub describe : AppError → String × String
describe e = ("ERROR", e.message)

abbrev no_harvest : Job → Tx Db (Unit {0})
no_harvest j = pure tt

axis_drafts-InRange_example : All InRange (axis_drafts (score ∷ []) [])
axis_drafts-InRange_example =
    axis_drafts-InRange (score ∷ []) [] ((omega arith, omega arith, omega arith), tt)

pub empty-UniqueVersions : UniqueVersions db
unfolding count_where
empty-UniqueVersions = (λ opportunity axis n. omega arith, λ opportunity n. omega arith)

-- The job succeeds, with a memo that a human has to weigh.
screened_job :
    map {B = JobStatus × Option JobResult}
      (λ (j : Job). (j.status, j.result))
      (request (process_job tools draw describe no_harvest 50) db).1.jobs
    ≡ (JobStatus.succeeded, some (screened 11 60 watchlist)) ∷ []
unfolding process_job dolphin_vc.Base.find_where dolphin_vc.Base.select_where
    dolphin_vc.Base.update_where dolphin_vc.Base.any_where dolphin_vc.Base.Text.split_lines
    dolphin_vc.Base.Text.char_count dolphin_vc.Extraction.Claims.lines_claims
    dolphin_vc.Extraction.Claims.line_claims dolphin_vc.Base.Text.contains
    dolphin_vc.Extraction.Claims.looks_like_prompt_injection dolphin_vc.Pipeline.Axes.market_count
    count_where dolphin_vc.Pipeline.Axes.traction_count dolphin_vc.Pipeline.Axes.product_count
screened_job = refl

abbrev scoring : Conn Db
scoring = connect db

abbrev scored_axes : Result (List OpportunityScore) → List OpportunityScore
scored_axes (ok axes) = axes
scored_axes (err e) = []

abbrev axes : List OpportunityScore
axes = scored_axes (score_axes deal (arr ∷ []) scoring).0

scored : score_axes deal (arr ∷ []) scoring ≡ (ok axes, (score_axes deal (arr ∷ []) scoring).1)
unfolding score_axes
scored = refl

on_scale : All OnScale (founder_scores_of deal.company_id db)
unfolding founder_scores_of select_where any_where
on_scale = ((omega arith, omega arith, omega arith), tt)

abbrev no_fit : ℕ × Option String
no_fit = (0, none)

screening-pass_iff_example :
    ((verdict tools.floats (arr ∷ []) axes no_fit).decision ≡ pass)
    ↔ ((any_where is_critical (arr ∷ []) ≡ false) × (no_fit.0 ≡ 0))
screening-pass_iff_example =
    screening-pass_iff exact deal (arr ∷ []) scoring (score_axes deal (arr ∷ []) scoring).1 axes
      no_fit scored on_scale

abbrev of_market : Claim
of_market = found 70 ClaimCategory.market "tam" none none "TAM of $9b"

abbrev of_product : Claim
of_product = found 71 ClaimCategory.product "deck_summary" none none "A compiler"

abbrev strong : List Claim
strong = of_market ∷ of_market ∷ of_market ∷ of_product ∷ of_product ∷ of_product ∷ of_product ∷ []

abbrev strong_axes : List OpportunityScore
strong_axes = scored_axes (score_axes deal strong scoring).0

abbrev good_fit : ℕ × Option String
good_fit = (7000, none)

strong_scored :
    score_axes deal strong scoring ≡ (ok strong_axes, (score_axes deal strong scoring).1)
unfolding score_axes
strong_scored = refl

strong_invest : (verdict tools.floats strong strong_axes good_fit).decision ≡ invest
unfolding verdict score_axes any_where select_where dolphin_vc.Pipeline.Axes.market_count
    count_where dolphin_vc.Pipeline.Axes.traction_count dolphin_vc.Pipeline.Axes.product_count
strong_invest = refl

screening_invests_example :
    (any_where is_critical strong ≡ false)
    × (6500 ≤ good_fit.0)
    × ((f : FounderScore) × (rest : List FounderScore) × (founder_scores_of deal.company_id db
          ≡ f ∷ rest)
        × (650 ≤ (best f rest).score))
screening_invests_example =
    screening_invests exact deal strong scoring (score_axes deal strong scoring).1 strong_axes
      good_fit strong_scored strong_invest

job_there : find_where (job_is 50) db.jobs ≡ some job
unfolding find_where
job_there = refl

process_job_ends_example :
    let (r, db') = request (process_job tools draw describe no_harvest 50) db in
    (x : Job) × (find_where (job_is 50) db'.jobs ≡ some x)
    × (((r ≡ ok tt) × ((x.status ≡ JobStatus.succeeded) ⊎ (x.status ≡ JobStatus.failed)))
        ⊎ ((r ≡ err refused_flush) × (x.status ≡ JobStatus.running)))
process_job_ends_example =
    process_job_ends tools draw describe no_harvest 50 db job job_there refl refl

-- What the first run leaves, when the job is put back into the queue.
abbrev queued_again : Db
queued_again = record (request (process_job tools draw describe no_harvest 50) db).1 {
  jobs = job ∷ [];
}

abbrev screened_deal : Option Opportunity → Opportunity
screened_deal none = deal
screened_deal (some o) = o

abbrev old_deal : Opportunity
old_deal = screened_deal (find_where (has_id 11) queued_again.opportunities)

there_again : find_where (job_is 50) queued_again.jobs ≡ some job
unfolding find_where
there_again = refl

deal_again : find_where (has_id 11) queued_again.opportunities ≡ some old_deal
unfolding process_job find_where update_where any_where select_where
deal_again = refl

acme_again :
    find_where (λ (x : Company). x.id == old_deal.company_id) queued_again.companies ≡ some acme
unfolding process_job find_where update_where any_where select_where
acme_again = refl

numbers_taken : step_taken 50 1 queued_again ≡ true
unfolding process_job find_where update_where any_where select_where
numbers_taken = refl

rerun_stays_running_example :
    let (r, db') = request (process_job tools draw describe no_harvest 50) queued_again in
    (r ≡ err refused_flush)
    × ((x : Job) × (find_where (job_is 50) db'.jobs ≡ some x) × (x.status ≡ JobStatus.running))
unfolding find_where process_job any_where select_where update_where
rerun_stays_running_example =
    rerun_stays_running tools draw describe no_harvest queued_again job old_deal acme there_again
      refl refl refl deal_again acme_again numbers_taken
