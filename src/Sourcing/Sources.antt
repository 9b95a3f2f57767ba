-- ===== src/Sourcing/Sources.antt =====
-- What the sources of a harvest keep (`_process_harvest` of backend/app/services/pipeline.py).
use dolphin_vc.Base.{Bool, true, false}
use dolphin_vc.Jobs.Worker.{step_taken, commit_step}
use dolphin_vc.Sourcing.Items.{ingest_items, NormalizedSignal, Tally}
use dolphin_vc.Sourcing.Harvest.{
  failed_at, opening_tally, number_or, channel_named, source_named, harvest_keys, harvest_channel,
  close_harvest, SourceDraw, source_or, process_harvest, harvest_step, harvest_sources,
  harvest_source, harvest_items, harvest_found, degrade, close_source, channel_or, Connectors,
}
use dolphin_vc.Base.{min, length, ℕ, ◌+◌, String, Bool, Option, none, some, List, [], ◌∷◌, not}
use dolphin_vc.Errors.{AppError, Result, ok, err}
use dolphin_vc.Session.{catch, Keeps, bind-Keeps, if-Keeps, catch-Keeps, pure}
use dolphin_vc.Records.{Db, Job, Source, SourcingChannel}
use dolphin_vc.Sourcing.Names.{text_or, Tools}
use dolphin_vc.Sourcing.Frame.{Here}
use dolphin_vc.Sourcing.Kept.{Sourced, ingest_items-Here}

module _ (tools : Tools) (P : Db → Type 0) (kept : Sourced tools P) (signal_key : ℕ → String)
    (describe : AppError → String × String) (connectors : Connectors) (org : ℕ) where
  close_source-Here :
      (draw : SourceDraw) (source : Source) (t : Tally)
      → Keeps (Here P) (close_source tools signal_key describe connectors org draw source t)
  unfolding close_source
  close_source-Here draw source t c h = let u = kept.sources _ c.working h.1 in (u, u)

  source_or-Here :
      (known : Option Source) (id : ℕ) (key name : String)
      → Keeps (Here P) (source_or known id key name)
  source_or-Here none id key name c h = (h.0, kept.sources _ c.working h.1)
  source_or-Here (some s) id key name c h = h

  channel_or-Here :
      (found : Option SourcingChannel) (id : ℕ) (key label : String)
      → Keeps (Here P) (channel_or found id key label)
  channel_or-Here none id key label c h = (h.0, kept.free.channels _ c.working h.1)
  channel_or-Here (some x) id key label c h = h

  harvest_items-Here :
      (draw : SourceDraw) (key : String) (t : Tally) (items : List NormalizedSignal)
      (source : Source)
      → Keeps
          (Here P)
          (harvest_items tools signal_key describe connectors org draw key t items source)
  unfolding harvest_items harvest_channel
  harvest_items-Here draw key t items source c h =
      bind-Keeps (Here P)
        (channel_or (channel_named key c.working) draw.channel_id key source.display_name)
        (harvest_channel tools signal_key describe connectors org draw source t items)
        (channel_or-Here (channel_named key c.working) draw.channel_id key source.display_name)
        (λ channel.
          bind-Keeps (Here P) (ingest_items tools signal_key org draw.item 0 source channel items t)
            (close_source tools signal_key describe connectors org draw source)
            (ingest_items-Here tools P P kept signal_key org draw.item 0 source channel items t)
            (close_source-Here draw source))
        c h

  harvest_found-Here :
      (draw : SourceDraw) (key : String) (known : Option Source) (t : Tally)
      (found : Result (List NormalizedSignal))
      → Keeps
          (Here P)
          (harvest_found tools signal_key describe connectors org draw key known t found)
  unfolding harvest_found
  harvest_found-Here draw key known t (err e) = λ c h. h
  harvest_found-Here draw key known t (ok items) =
      bind-Keeps (Here P) (source_or known draw.source_id key (tools.title_case key))
        (harvest_items tools signal_key describe connectors org draw key t items)
        (source_or-Here known draw.source_id key (tools.title_case key))
        (harvest_items-Here draw key t items)

  degrade-Here :
      (draw : SourceDraw) (key : String) (known : Option Source) (t : Tally) (e : AppError)
      → Keeps (Here P) (degrade tools signal_key describe connectors org draw key known t e)
  unfolding degrade
  degrade-Here draw key none t e c h = h
  degrade-Here draw key (some s) t e c h = let u = kept.sources _ c.working h.1 in (u, u)

  commit_step-Kept : (taken : Bool) → Keeps (Here P) (commit_step taken)
  commit_step-Kept true c h = (h.0, h.0)
  commit_step-Kept false c h = (h.1, h.1)

  harvest_step-Here :
      (job_id seq total : ℕ) (key : String) (t : Tally)
      → Keeps
          (Here P)
          (harvest_step tools signal_key describe connectors org job_id seq total key t)
  unfolding harvest_step
  harvest_step-Here job_id seq total key t c h =
      bind-Keeps (Here P) (commit_step (step_taken job_id seq c.working)) (λ _. pure t)
        (commit_step-Kept (step_taken job_id seq c.working)) (λ _ c' h'. h') _
        (h.0, kept.agent_steps _ c.working h.1)

  harvest_source-Here :
      (draw : SourceDraw) (job_id seq total : ℕ) (text : String) (limit : ℕ) (key : String)
      (t : Tally)
      → Keeps (Here P) (
          harvest_source tools signal_key describe connectors org draw job_id seq total text limit
            key t)
  unfolding harvest_source
  harvest_source-Here draw job_id seq total text limit key t c h =
      let known = source_named key c.working in
      let found = connectors.harvest key text limit in
      if-Keeps (Here P) (not (connectors.enabled key)) (pure (failed_at key "no_credentials" t)) _
        (λ c' h'. h')
        (bind-Keeps (Here P)
          (catch (harvest_found tools signal_key describe connectors org draw key known t found)
            (degrade tools signal_key describe connectors org draw key known t))
          (harvest_step tools signal_key describe connectors org job_id seq total key)
          (catch-Keeps (Here P)
            (harvest_found tools signal_key describe connectors org draw key known t found)
            (degrade tools signal_key describe connectors org draw key known t)
            (harvest_found-Here draw key known t found) (degrade-Here draw key known t))
          (harvest_step-Here job_id seq total key))
        c h

  harvest_sources-Here :
      (draw : ℕ → SourceDraw) (job_id total : ℕ) (text : String) (limit seq : ℕ)
      (keys : List String) (t : Tally)
      → Keeps (Here P) (
          harvest_sources tools signal_key describe connectors org draw job_id total text limit seq
            keys t)
  unfolding harvest_sources
  harvest_sources-Here draw job_id total text limit seq [] t = λ c h. h
  harvest_sources-Here draw job_id total text limit seq (key ∷ keys) t =
      bind-Keeps (Here P)
        (harvest_source tools signal_key describe connectors org (draw seq) job_id seq total text
          limit key t)
        (harvest_sources tools signal_key describe connectors org draw job_id total text limit
          (seq + 1) keys)
        (harvest_source-Here (draw seq) job_id seq total text limit key t)
        (harvest_sources-Here draw job_id total text limit (seq + 1) keys)

  -- A whole harvest keeps the property.
  pub process_harvest-Here :
      (demo_mode : Bool) (draw : ℕ → SourceDraw) (now : ℕ) (job : Job)
      → Keeps
          (Here P)
          (process_harvest tools signal_key describe connectors org demo_mode draw now job)
  unfolding process_harvest close_harvest
  process_harvest-Here demo_mode draw now job =
      let keys = harvest_keys tools signal_key describe connectors org demo_mode job in
      bind-Keeps (Here P)
        (harvest_sources tools signal_key describe connectors org draw job.id (length keys)
          (text_or job.input.query "AI startup") (min 100 (number_or job.input.limit 25)) 1 keys
          (opening_tally tools signal_key describe connectors org demo_mode))
        (close_harvest tools signal_key describe connectors org now job)
        (harvest_sources-Here draw job.id (length keys) (text_or job.input.query "AI startup")
          (min 100 (number_or job.input.limit 25)) 1 keys
          (opening_tally tools signal_key describe connectors org demo_mode))
        (λ t c h. let u = kept.jobs _ c.working h.1 in (u, u))
