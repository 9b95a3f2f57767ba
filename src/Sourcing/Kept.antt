-- ===== src/Sourcing/Kept.antt =====
-- What a harvest keeps of the database (`_process_harvest` of backend/app/services/pipeline.py).
use dolphin_vc.Sourcing.Items.{
  screening_job, signal_of, Tally, NormalizedSignal, ItemDraw, queue_screening, ingest_unless,
  ingest_new, ingest_items, same_signal,
}
use dolphin_vc.Sourcing.Companies.{ensure_company}
use dolphin_vc.Sourcing.People.{ensure_signal_person, ensure_affiliation}
use dolphin_vc.Opportunities.Commands.{live_for}
use dolphin_vc.Sourcing.Signals.{
  resolved_as, record_memory, settle, find_person, attach, signal_is, person_id_of,
  record_founder_events, outbound, opportunity_or, SignalDraw, resolve_outbound_signal,
  ensure_opportunity, credit, advance,
}
use dolphin_vc.Opportunities.Creation.{add_opportunity, CreationDraw}
use dolphin_vc.Base.{
  ◌+◌, String, true, ℕ, ◌≡◌, inl, inr, Option, none, some, List, [], ◌∷◌, ◌++◌, update_where,
  find_where, Option-cases,
}
use dolphin_vc.Session.{resume-Keeps, Conn, ◌>>=◌, Keeps, bind-Keeps, pure}
use dolphin_vc.Records.{
  Application, Document, Opportunity, set_signals, Db, Signal, Source, Job, AgentStep,
  SourcingChannel, Company, Person,
}
use dolphin_vc.Sourcing.Names.{Tools}
use dolphin_vc.Sourcing.Frame.{
  Beside, record_memory-Here, record_founder_events-Here, ensure_signal_person-Here,
  ensure_affiliation-Here, ensure_company-Here, Indifferent,
}

-- A property of the database that the writes of a harvest keep: those of people, companies, channels
-- and memory do not touch it; an opportunity comes in where its company has no live one, and a signal
-- where there is none like it.
pub record Sourced (tools : Tools) (P : Db → Type 0) : Type 0 where
  pub free : Indifferent P
  pub sources : (rows : List Source) (db : Db) → P db → P (record db { sources = rows })
  pub agent_steps : (rows : List AgentStep) (db : Db) → P db → P (record db { agent_steps = rows })
  pub opened :
      (o : Opportunity) (db : Db)
      → find_where (live_for o.org_id o.company_id) db.opportunities ≡ none
      → P db
      → P (add_opportunity o db)
  pub noted :
      (s : Signal) (db : Db)
      → find_where (same_signal s.source_id s.content_hash s.observed_at) db.signals ≡ none
      → P db
      → P (set_signals (λ rows. rows ++ s ∷ []) db)
  pub of_person :
      (id : ℕ) (person : Option ℕ) (db : Db)
      → P db
      → P (
          set_signals (update_where (signal_is tools id) (λ s. record s { person_id = person })) db)
  pub of_company :
      (id : ℕ) (company : Option ℕ) (db : Db)
      → P db
      → P (
          set_signals
            (update_where (signal_is tools id) (λ s. record s { company_id = company }))
            db)
  pub documents : (rows : List Document) (db : Db) → P db → P (record db { documents = rows })
  pub applications :
      (rows : List Application) (db : Db) → P db → P (record db { applications = rows })
  pub jobs : (rows : List Job) (db : Db) → P db → P (record db { jobs = rows })

module _ (tools : Tools) (C P : Db → Type 0) (kept : Sourced tools P) where
  advance-Here : (channel : Option SourcingChannel) → Keeps (Beside C P) (advance tools channel)
  advance-Here none c h = h
  advance-Here (some channel) c h = (h.0, kept.free.channels _ _ h.1)

  ensure_opportunity-Here :
      (draw : CreationDraw) (signal : Signal) (company : Company) (channel : Option SourcingChannel)
      → Keeps (Beside C P) (ensure_opportunity tools draw signal company channel)
  unfolding ensure_opportunity opportunity_or
  ensure_opportunity-Here draw signal company channel c h =
      elim (Option-cases (find_where (live_for signal.org_id company.id) c.working.opportunities)) [
        | inl missing ↦ rw missing (
            bind-Keeps (Beside C P) (advance tools channel)
              (λ _. pure (outbound tools draw signal company, true)) (advance-Here channel)
              (λ _ c' h'. h')
              (record c {
                working = add_opportunity (outbound tools draw signal company) c.working;
              })
              (h.0, kept.opened (outbound tools draw signal company) c.working missing h.1))
        | inr (o, found) ↦ rw found h
      ]

  credit-Here :
      (now : ℕ) (signal : Signal) (company : Company) (person : Option Person)
      → Keeps (Beside C P) (credit tools now signal company person)
  unfolding credit
  credit-Here now signal company none c h = h
  credit-Here now signal company (some p) c h =
      bind-Keeps (Beside C P) (ensure_affiliation p.id company.id 650)
        (λ _. record_founder_events tools now p.id signal)
        (ensure_affiliation-Here tools C P kept.free p.id company.id 650)
        (λ _. record_founder_events-Here tools C P kept.free now p.id signal) _
        (h.0, kept.of_person signal.id (some p.id) c.working h.1)

  settle-Here :
      (draw : SignalDraw) (signal : Signal) (source : ℕ) (channel : Option SourcingChannel)
      (company : Company) (person : Option Person)
      → Keeps (Beside C P) (settle tools draw signal source channel company person)
  unfolding settle
  settle-Here draw signal source channel company person =
      bind-Keeps (Beside C P)
        (record_memory tools signal source (person_id_of person) company.id channel)
        (λ _. ensure_opportunity tools draw.creation signal company channel >>= λ made.
          pure (resolved_as tools person company made))
        (record_memory-Here tools C P kept.free signal source (person_id_of person) company.id
          channel)
        (λ _.
          bind-Keeps (Beside C P) (ensure_opportunity tools draw.creation signal company channel)
            (λ made. pure (resolved_as tools person company made))
            (ensure_opportunity-Here draw.creation signal company channel) (λ made c h. h))

  attach-Here :
      (draw : SignalDraw) (signal : Signal) (source : ℕ) (channel : Option SourcingChannel)
      (company : Company) (person : Option Person)
      → Keeps (Beside C P) (attach tools draw signal source channel company person)
  unfolding attach
  attach-Here draw signal source channel company person c h =
      bind-Keeps (Beside C P) (credit tools draw.creation.now signal company person)
        (λ _. settle tools draw signal source channel company person)
        (credit-Here draw.creation.now signal company person)
        (λ _. settle-Here draw signal source channel company person) _
        (h.0, kept.of_company signal.id (some company.id) c.working h.1)

  -- Resolving a signal keeps the property.
  resolve-Here :
      (draw : SignalDraw) (signal : Signal) (source : ℕ) (channel : Option SourcingChannel)
      → Keeps (Beside C P) (resolve_outbound_signal tools draw signal source channel)
  unfolding resolve_outbound_signal find_person
  resolve-Here draw signal source channel =
      bind-Keeps (Beside C P) (ensure_company tools draw.creation.company_id signal)
        (find_person tools draw signal source channel)
        (ensure_company-Here tools C P kept.free draw.creation.company_id signal)
        (λ company.
          bind-Keeps (Beside C P)
            (ensure_signal_person tools signal draw.person_id draw.creation.now)
            (attach tools draw signal source channel company)
            (ensure_signal_person-Here tools C P kept.free signal draw.person_id draw.creation.now)
            (attach-Here draw signal source channel company))

module _ (tools : Tools) (C P : Db → Type 0) (kept : Sourced tools P) (signal_key : ℕ → String)
    (org : ℕ) where
  -- What follows of a signal that was put in.
  pub resolved-Here :
      (draw : ItemDraw) (source : Source) (channel : SourcingChannel) (item : NormalizedSignal)
      (t : Tally)
      → Keeps (Beside C P) (
          resolve_outbound_signal tools draw.rows
            (signal_of draw.signal_id org source.id item)
            source.id
            (some channel)
          >>= queue_screening tools signal_key org draw channel t)
  unfolding queue_screening
  resolved-Here draw source channel item t =
      let signal = signal_of draw.signal_id org source.id item in
      bind-Keeps (Beside C P)
        (resolve_outbound_signal tools draw.rows signal source.id (some channel))
        (queue_screening tools signal_key org draw channel t)
        (resolve-Here tools C P kept draw.rows signal source.id (some channel))
        (λ candidate c' h'. (
          h'.0,
          kept.free.channels _ _ (
              kept.jobs
                (c'.working.jobs ++ screening_job signal_key draw org candidate.opportunity.id ∷ [])
                _ h'.1),
        ))

  ingest_new-Here :
      (draw : ItemDraw) (source : Source) (channel : SourcingChannel) (item : NormalizedSignal)
      (t : Tally) (c : Conn Db)
      → find_where (same_signal source.id item.content_hash item.observed_at) c.working.signals
        ≡ none
      → Beside C P c
      → Beside C P (ingest_new tools signal_key org draw source channel item t c).1
  unfolding ingest_new
  ingest_new-Here draw source channel item t c none_like h =
      let signal = signal_of draw.signal_id org source.id item in
      resolved-Here draw source channel item t
        (record c { working = set_signals (λ rows. rows ++ signal ∷ []) c.working })
        (h.0, kept.noted signal c.working none_like h.1)

  -- The items of a source keep the property.
  pub ingest_items-Here :
      (draw : ℕ → ItemDraw) (n : ℕ) (source : Source) (channel : SourcingChannel)
      (items : List NormalizedSignal) (t : Tally)
      → Keeps (Beside C P) (ingest_items tools signal_key org draw n source channel items t)
  unfolding ingest_items ingest_unless
  ingest_items-Here draw n source channel [] t c h = h
  ingest_items-Here draw n source channel (item ∷ items) t c h =
      elim (Option-cases
        (find_where (same_signal source.id item.content_hash item.observed_at) c.working.signals)) [
          | inl missing ↦ rw missing (
              resume-Keeps (Beside C P)
                (ingest_new tools signal_key org (draw n) source channel item t c)
                (ingest_items tools signal_key org draw (n + 1) source channel items)
                (ingest_new-Here (draw n) source channel item t c missing h)
                (ingest_items-Here draw (n + 1) source channel items))
          | inr (s, found) ↦ rw found (ingest_items-Here draw (n + 1) source channel items t c h)
        ]
