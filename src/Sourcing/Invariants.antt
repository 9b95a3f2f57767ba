-- ===== src/Sourcing/Invariants.antt =====
-- The invariants of sourcing: live opportunities, signals and versions (`_process_harvest` of
-- backend/app/services/pipeline.py).
use dolphin_vc.Sourcing.Frame.{Here}
use dolphin_vc.Pipeline.Process.{process_job}
use dolphin_vc.Pipeline.Screen.{ScreenDraw, ScreenTools}
use dolphin_vc.Sourcing.Sources.{process_harvest-Here}
use dolphin_vc.Opportunities.Commands.{live_for}
use dolphin_vc.Sourcing.Signals.{signal_is}
use dolphin_vc.Sourcing.Items.{same_signal}
use dolphin_vc.Sourcing.Harvest.{process_harvest, SourceDraw, Connectors}
use dolphin_vc.Base.{
  ==_eq, count_where-insert, bit, Bool-cases, none, find_where-none→count_where, ℕ, ◌≡◌, ◌≤◌, inl,
  inr, refl, arith, ap, sym, String, Bool, true, List, [], ◌∷◌, ◌++◌, count_where, update_where,
  find_where,
}
use text.Mathlib.TextEquality.{eq_iff}
use dolphin_vc.Errors.{AppError}
use dolphin_vc.Session.{bind-Keeps, pure, ◌>>=◌, connect, request}
use dolphin_vc.Records.{set_signals, Db, Signal, Job}
use dolphin_vc.Opportunities.Liveness.{added_count, live_count}
use dolphin_vc.Pipeline.Versions.{process_job-UniqueVersions, UniqueVersions}
use dolphin_vc.Sourcing.Names.{Tools}
use dolphin_vc.Sourcing.Kept.{Sourced}

-- No two signals have a source, a hash and an instant.
abbrev UniqueSignals : Db → Type 0
UniqueSignals db =
    (source : ℕ) (hash : String) (observed : ℕ)
    → count_where (same_signal source hash observed) db.signals ≤ 1

-- No organisation has two live opportunities for a company, no two signals are alike, and the
-- versions of scores and memos are unique.
abbrev pub Consistent : Db → Type 0
Consistent db =
    ((org company : ℕ) → live_count org company db ≤ 1) × UniqueSignals db × UniqueVersions db

-- What an update of signals keeps of their number.
updated_signals :
    (g : Signal → Signal) (p q : Signal → Bool) (rows : List Signal)
    → ((s : Signal) → p (g s) ≡ p s)
    → count_where p (update_where q g rows) ≡ count_where p rows
unfolding count_where update_where
updated_signals g p q [] same = refl
updated_signals g p q (s ∷ rows) same = ground (arith, same s, updated_signals g p q rows same)

alike :
    (source : ℕ) (hash : String) (observed : ℕ) (s : Signal)
    → same_signal source hash observed s ≡ true
    → (source ≡ s.source_id) × (hash ≡ s.content_hash) × (observed ≡ s.observed_at)
alike source hash observed s h = (
  sym (==_eq s.source_id source (ground arith)),
  sym ((eq_iff s.content_hash hash).0 (ground arith)),
  sym (==_eq s.observed_at observed (ground arith)),
)

bit-le : (b : Bool) → bit b ≤ 1
bit-le b = ground arith

-- A signal that is put in is the only one like it.
noted-UniqueSignals :
    (s : Signal) (db : Db)
    → find_where (same_signal s.source_id s.content_hash s.observed_at) db.signals ≡ none
    → UniqueSignals db
    → UniqueSignals (set_signals (λ rows. rows ++ s ∷ []) db)
noted-UniqueSignals s db none_like h source hash observed =
    elim (Bool-cases (same_signal source hash observed s)) [
      | inr other ↦ omega (
        arith,
        ap bit other,
        h source hash observed,
        count_where-insert (same_signal source hash observed) db.signals s,
      )
      | inl same ↦
          let mine = same_signal s.source_id s.content_hash s.observed_at in
          let (e0, e1, e2) = alike source hash observed s same in
          rw (e0, e1, e2)
            (omega (
              arith,
              find_where-none→count_where mine db.signals none_like,
              bit-le (mine s),
              count_where-insert mine db.signals s,
            ))
    ]

module _ (tools : Tools) where
  pub consistent : Sourced tools Consistent
  consistent = record {
    free = record {
      companies = λ rows db h. h;
      persons = λ rows db h. h;
      affiliations = λ rows db h. h;
      founder_scores = λ rows db h. h;
      founder_events = λ rows db h. h;
      snapshots = λ rows db h. h;
      chunks = λ rows db h. h;
      edges = λ rows db h. h;
      channels = λ rows db h. h;
    };
    sources = λ rows db h. h;
    agent_steps = λ rows db h. h;
    opened = λ o db none_live h. (
      λ org company.
          added_count o.org_id o.company_id org company o db refl refl
            (find_where-none→count_where (live_for o.org_id o.company_id) db.opportunities
              none_live)
            (h.0 org company),
      h.1,
      h.2,
    );
    noted = λ s db none_like h. (h.0, noted-UniqueSignals s db none_like h.1, h.2);
    of_person = λ id person db h. (
      h.0,
      λ source hash observed.
          rw
            (updated_signals (λ s. record s { person_id = person })
              (same_signal source hash observed) (signal_is tools id) db.signals (λ s. refl))
            (h.1 source hash observed),
      h.2,
    );
    of_company = λ id company db h. (
      h.0,
      λ source hash observed.
          rw
            (updated_signals (λ s. record s { company_id = company })
              (same_signal source hash observed) (signal_is tools id) db.signals (λ s. refl))
            (h.1 source hash observed),
      h.2,
    );
    documents = λ rows db h. h;
    applications = λ rows db h. h;
    jobs = λ rows db h. h;
  }

module _ (tools : Tools) (signal_key : ℕ → String) (describe : AppError → String × String)
    (connectors : Connectors) (org : ℕ) where
  -- However a harvest ends, whatever the connectors find and whichever of them raise, it leaves in the
  -- database at most one live opportunity of an organisation for a company, at most one signal with a
  -- given source, hash and instant, and at most one score and one memo with a given version, if that
  -- was so before.
  pub process_harvest-Consistent :
      (demo_mode : Bool) (draw : ℕ → SourceDraw) (now : ℕ) (job : Job) (db : Db)
      → Consistent db
      → Consistent
          (request
            (process_harvest tools signal_key describe connectors org demo_mode draw now job)
            db).1
  process_harvest-Consistent demo_mode draw now job db h =
      (process_harvest-Here tools Consistent (consistent tools) signal_key describe connectors org
        demo_mode draw now job (connect db) (h, h)).0

module _ (tools : Tools) where
  versions : Sourced tools UniqueVersions
  versions = record {
    free = record {
      companies = λ rows db h. h;
      persons = λ rows db h. h;
      affiliations = λ rows db h. h;
      founder_scores = λ rows db h. h;
      founder_events = λ rows db h. h;
      snapshots = λ rows db h. h;
      chunks = λ rows db h. h;
      edges = λ rows db h. h;
      channels = λ rows db h. h;
    };
    sources = λ rows db h. h;
    agent_steps = λ rows db h. h;
    opened = λ o db none_live h. h;
    noted = λ s db none_like h. h;
    of_person = λ id person db h. h;
    of_company = λ id company db h. h;
    documents = λ rows db h. h;
    applications = λ rows db h. h;
    jobs = λ rows db h. h;
  }

-- Whatever a worker does, a screening or a harvest with its connectors, and however it ends, it leaves
-- at most one score of an opportunity on an axis with a given version and at most one of its memos, if
-- that was so before.
pub worker-UniqueVersions :
    {D : Type 0} (screening : ScreenTools D) (draw : ScreenDraw)
    (describe : AppError → String × String) (tools : Tools) (signal_key : ℕ → String)
    (describe' : AppError → String × String) (connectors : Connectors) (org_of : Job → ℕ)
    (demo_mode : Bool) (sources : ℕ → SourceDraw) (now job_id : ℕ) (db : Db)
    → UniqueVersions db
    → UniqueVersions
        (request
          (process_job screening draw describe
            (λ j.
              process_harvest tools signal_key describe' connectors
                (org_of j)
                demo_mode
                sources
                now
                j
              >>= λ _. pure tt)
            job_id)
          db).1
worker-UniqueVersions screening draw describe tools signal_key describe' connectors org_of demo_mode
      sources now job_id db h =
    process_job-UniqueVersions screening draw describe
      (λ j.
        process_harvest tools signal_key describe' connectors (org_of j) demo_mode sources now j
        >>= λ _. pure tt)
      job_id db
      (λ j.
        bind-Keeps (Here UniqueVersions)
          (process_harvest tools signal_key describe' connectors (org_of j) demo_mode sources now j)
          (λ _. pure tt)
          (process_harvest-Here tools UniqueVersions (versions tools) signal_key describe'
            connectors (org_of j) demo_mode sources now j)
          (λ _ c k. k))
      h
