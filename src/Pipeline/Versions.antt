-- ===== src/Pipeline/Versions.antt =====
-- The versions of scores and memos (`_score_axes` and `process_job` of
-- backend/app/services/pipeline.py).
use dolphin_vc.Pipeline.Invariant.{process_job-Here}
use dolphin_vc.Scoring.Recommendation.{Recommendation}
use dolphin_vc.Pipeline.Process.{process_job, memo_row}
use dolphin_vc.Pipeline.Kept.{Kept}
use dolphin_vc.Errors.{AppError}
use dolphin_vc.Session.{connect, request, Tx, Keeps, Conn}
use dolphin_vc.Pipeline.Screen.{latest_memo, ScreenDraw, ScreenTools, memo_of}
use dolphin_vc.Types.{AxisKind}
use dolphin_vc.Records.{Claim, Opportunity, Job, Memo, OpportunityScore, Db}
use dolphin_vc.Pipeline.Axes.{latest_version, AxisDraft, score_of, same_axis, score_row}
use dolphin_vc.Base.{
  ap, String, ◌++◌, [], ◌∷◌, count_where-next, sym, ℕ, ◌+◌, ◌≤◌, ◌≡◌, refl, ◌&&◌, true, List, ◌==◌,
  arith, count_where, ==_eq,
}

-- At most one of the scores of an opportunity on an axis has a version, and at most one of the memos
-- of an opportunity.
abbrev UniqueRows : List OpportunityScore → List Memo → List Job → Type 0
UniqueRows scores memos jobs =
    ((opportunity : ℕ) (axis : AxisKind) (n : ℕ)
      → count_where (λ s. score_of opportunity axis s && (s.version == n)) scores ≤ 1)
    × ((opportunity n : ℕ) → count_where (λ m. memo_of opportunity m && (m.version == n)) memos ≤ 1)

abbrev pub UniqueVersions : Db → Type 0
UniqueVersions db = UniqueRows db.scores db.memos db.jobs

-- What is committed and what is written have unique versions.
abbrev Unique : Conn Db → Type 0
Unique c = UniqueVersions c.committed × UniqueVersions c.working

pub same_axis→eq : (a b : AxisKind) → same_axis a b ≡ true → a ≡ b
same_axis→eq AxisKind.founder AxisKind.founder h = refl
same_axis→eq AxisKind.market AxisKind.market h = refl
same_axis→eq AxisKind.idea_vs_market AxisKind.idea_vs_market h = refl
same_axis→eq AxisKind.founder AxisKind.market h = absurd (ground arith)
same_axis→eq AxisKind.founder AxisKind.idea_vs_market h = absurd (ground arith)
same_axis→eq AxisKind.market AxisKind.founder h = absurd (ground arith)
same_axis→eq AxisKind.market AxisKind.idea_vs_market h = absurd (ground arith)
same_axis→eq AxisKind.idea_vs_market AxisKind.founder h = absurd (ground arith)
same_axis→eq AxisKind.idea_vs_market AxisKind.market h = absurd (ground arith)

-- A row that the opportunity and axis select has the version above their latest.
score_row-version :
    (rows : List OpportunityScore) (o : ℕ) (d : AxisDraft) (opportunity : ℕ) (axis : AxisKind)
    → score_of opportunity axis (score_row o rows d) ≡ true
    → (score_row o rows d).version ≡ latest_version opportunity axis rows + 1
unfolding score_row
score_row-version rows o d opportunity axis h =
    rw (sym (==_eq o opportunity (ground arith)), sym (same_axis→eq d.axis axis (ground arith)))
      refl

scored-Unique :
    (o : ℕ) (d : AxisDraft) (scores : List OpportunityScore) (memos : List Memo) (jobs : List Job)
    → UniqueRows scores memos jobs
    → UniqueRows (scores ++ score_row o scores d ∷ []) memos jobs
unfolding latest_version
scored-Unique o d scores memos jobs h = (
  λ opportunity axis n.
      count_where-next (λ s. s.version) (score_of opportunity axis) scores (score_row o scores d) n
        (score_row-version scores o d opportunity axis) (h.0 opportunity axis n),
  h.1,
)

module _ {D : Type 0} (tools : ScreenTools D) (draw : ScreenDraw) where
  noted-Unique :
      (o : Opportunity) (claims : List Claim) (r : Recommendation) (scores : List OpportunityScore)
      (memos : List Memo) (jobs : List Job)
      → UniqueRows scores memos jobs
      → UniqueRows scores
          (memos ++ memo_row tools draw o claims r (latest_memo o.id memos) ∷ [])
          jobs
  unfolding memo_row latest_memo
  noted-Unique o claims r scores memos jobs h = (
    h.0,
    λ opportunity n.
        count_where-next (λ m. m.version) (memo_of opportunity) memos
          (memo_row tools draw o claims r (latest_memo o.id memos)) n
          (λ mine. ap (λ x. latest_memo x memos + 1) (==_eq o.id opportunity mine))
          (h.1 opportunity n),
  )

  abbrev unique : Kept tools draw
  unique = record {
    P = UniqueRows;
    scored = scored-Unique;
    noted = noted-Unique;
    beaten = λ id progress action now scores memos jobs h. h;
  }

-- If a harvest keeps it, a job of any kind keeps the following of the database, however it ends: at
-- most one score of an opportunity on an axis has a given version, and at most one of its memos. So
-- each screening adds its own versions, and a failure in the middle leaves no version twice.
pub process_job-UniqueVersions :
    {D : Type 0} (tools : ScreenTools D) (draw : ScreenDraw) (describe : AppError → String × String)
    (harvest : Job → Tx Db (Unit {0})) (job_id : ℕ) (db : Db)
    → ((j : Job) → Keeps Unique (harvest j))
    → UniqueVersions db
    → UniqueVersions (request (process_job tools draw describe harvest job_id) db).1
process_job-UniqueVersions tools draw describe harvest job_id db keep h =
    (process_job-Here tools draw (unique tools draw) (λ id g scores memos jobs same h. h) describe
      harvest keep job_id (connect db) (h, h)).0
