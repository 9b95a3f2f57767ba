-- ===== src/Jobs/Reaper.antt =====
-- What the reaper leaves (`reap_stale_jobs` of backend/app/services/jobs.py).
use dolphin_vc.Base.{
  ℕ, ◌+◌, ◌≡◌, refl, ap, true, Bool, false, List, [], ◌∷◌, arith, length, count_where, select_where,
  update_where, count_where-update_where_none,
}
use dolphin_vc.Errors.{ok}
use dolphin_vc.Session.{request}
use dolphin_vc.Types.{JobStatus}
use dolphin_vc.Records.{Job, Db}
use dolphin_vc.Jobs.Queue.{is_stale, lose, reap_stale_jobs}

length-select_where {ℓ} :
    {A : Type ℓ} (p : A → Bool) (l : List A) → length (select_where p l) ≡ count_where p l
unfolding select_where count_where
length-select_where p [] = refl
length-select_where p (x ∷ l) = ground (arith, length-select_where p l)

abbrev pub has_failed : JobStatus → Bool
has_failed JobStatus.failed = true
has_failed _ = false

abbrev pub is_failed : Job → Bool
is_failed j = has_failed j.status

failed-update :
    (now : ℕ) (l : List Job)
    → count_where is_failed (update_where (is_stale now) (lose now) l)
      ≡ count_where is_failed l + count_where (is_stale now) l
unfolding count_where update_where
failed-update now [] = refl
failed-update now (j ∷ l) = ground (arith, failed-update now l)

-- The reaper returns the number of jobs that were stale; it leaves none that is stale at that time,
-- and that many more failed jobs.
pub reap_stale_jobs_lem :
    (now : ℕ) (db : Db)
    → let (r, db') = request (reap_stale_jobs now) db in
      (r ≡ ok (count_where (is_stale now) db.jobs))
      × (count_where (is_stale now) db'.jobs ≡ 0)
      × (count_where is_failed db'.jobs
          ≡ count_where is_failed db.jobs + count_where (is_stale now) db.jobs)
unfolding reap_stale_jobs
reap_stale_jobs_lem now db = (
  ap (λ n. ok n) (length-select_where (is_stale now) db.jobs),
  count_where-update_where_none (is_stale now) (is_stale now) (lose now) db.jobs
      (λ j. ground arith),
  failed-update now db.jobs,
)
