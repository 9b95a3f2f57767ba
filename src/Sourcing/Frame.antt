-- ===== src/Sourcing/Frame.antt =====
-- What the resolution of a signal keeps of the database (`resolve_outbound_signal` of
-- backend/app/services/ingestion.py).
use dolphin_vc.Sourcing.Events.{score_events_for, ScoreDraft, add_events}
use dolphin_vc.Sourcing.Signals.{
  content_of, remember, record_memory, record_founder_events, connect_channel,
}
use dolphin_vc.Sourcing.People.{
  person_by_identity, surest, person_or, identity_hints, hinted_person, ensure_signal_person,
  ensure_affiliation, count_signal,
}
use dolphin_vc.Sourcing.Founders.{recompute_founder_score}
use dolphin_vc.Sourcing.Companies.{told_company, known_company, ensure_company}
use dolphin_vc.Base.{
  inr, inl, str_eq, opt_is, Option-cases, String, ℕ, Option, none, some, List, [], ◌∷◌, ◌++◌,
}
use dolphin_vc.Session.{◌>>=◌, Conn, Keeps, bind-Keeps, if-Keeps, pure}
use dolphin_vc.Records.{
  Db, Company, Person, Affiliation, FounderScore, FounderScoreEvent, FounderScoreSnapshot, KbChunk,
  ChannelEdge, SourcingChannel, Signal, IdentityHint,
}
use dolphin_vc.Sourcing.Names.{clean_name, Tools}

-- A property of the database that the rows of people, companies, channels and memory do not touch.
pub record Indifferent (P : Db → Type 0) : Type 0 where
  pub companies : (rows : List Company) (db : Db) → P db → P (record db { companies = rows })
  pub persons : (rows : List Person) (db : Db) → P db → P (record db { persons = rows })
  pub affiliations :
      (rows : List Affiliation) (db : Db) → P db → P (record db { affiliations = rows })
  pub founder_scores :
      (rows : List FounderScore) (db : Db) → P db → P (record db { founder_scores = rows })
  pub founder_events :
      (rows : List FounderScoreEvent) (db : Db) → P db → P (record db { founder_events = rows })
  pub snapshots :
      (rows : List FounderScoreSnapshot) (db : Db) → P db → P (record db { snapshots = rows })
  pub chunks : (rows : List KbChunk) (db : Db) → P db → P (record db { chunks = rows })
  pub edges : (rows : List ChannelEdge) (db : Db) → P db → P (record db { edges = rows })
  pub channels : (rows : List SourcingChannel) (db : Db) → P db → P (record db { channels = rows })

-- A property holds of what is committed, and another of what the session has written.
abbrev pub Beside : (Db → Type 0) → (Db → Type 0) → Conn Db → Type 0
Beside C P c = C c.committed × P c.working

abbrev pub Here : (Db → Type 0) → Conn Db → Type 0
Here P = Beside P P

module _ (tools : Tools) (C P : Db → Type 0) (free : Indifferent P) where
  pub recompute-Here :
      (now person : ℕ) → Keeps (Beside C P) (recompute_founder_score tools now person)
  unfolding recompute_founder_score
  recompute-Here now person c h = (h.0, free.snapshots _ _ (free.founder_scores _ c.working h.1))

  pub ensure_company-Here :
      (id : ℕ) (signal : Signal) → Keeps (Beside C P) (ensure_company tools id signal)
  unfolding ensure_company
  ensure_company-Here id signal c h = elim (Option-cases (known_company tools signal c.working)) [
    | inl missing ↦ rw missing (
      h.0,
      free.companies _ _
          (free.companies (c.working.companies ++ told_company tools id signal ∷ []) _ h.1),
    )
    | inr (x, found) ↦ rw found (h.0, free.companies _ _ h.1)
  ]

  pub ensure_affiliation-Here :
      (person company confidence : ℕ)
      → Keeps (Beside C P) (ensure_affiliation person company confidence)
  unfolding ensure_affiliation
  ensure_affiliation-Here person company confidence c h = (h.0, free.affiliations _ _ h.1)

  count_signal-Here :
      (signal : Signal) (p : Person) → Keeps (Beside C P) (count_signal tools signal p)
  count_signal-Here signal p =
      if-Keeps (Beside C P) (opt_is signal.person_id p.id) (pure p) _ (λ c h. h)
        (λ c h. (h.0, free.persons _ _ h.1))

  person_or-Here :
      (found : Option Person) (id now : ℕ) (provider value : String)
      → Keeps (Beside C P) (person_or tools found id now provider value)
  person_or-Here none id now provider value c h = (h.0, free.persons _ _ h.1)
  person_or-Here (some p) id now provider value c h = h

  hinted-Here :
      (signal : Signal) (id now : ℕ) (hints : List IdentityHint)
      → Keeps (Beside C P) (hinted_person tools signal id now hints)
  hinted-Here signal id now [] c h = h
  hinted-Here signal id now (g ∷ hints) c h =
      let hint = surest g hints in
      let value = clean_name (some hint.value) "Unknown founder" in
      bind-Keeps (Beside C P)
        (person_or tools (person_by_identity tools hint.provider value c.working) id now
          hint.provider value)
        (λ p. count_signal tools signal p >>= λ counted. pure (some counted))
        (person_or-Here (person_by_identity tools hint.provider value c.working) id now
          hint.provider value)
        (λ p.
          bind-Keeps (Beside C P) (count_signal tools signal p) (λ counted. pure (some counted))
            (count_signal-Here signal p) (λ counted c' h'. h'))
        c h

  pub ensure_signal_person-Here :
      (signal : Signal) (id now : ℕ) → Keeps (Beside C P) (ensure_signal_person tools signal id now)
  unfolding ensure_signal_person
  ensure_signal_person-Here signal id now = hinted-Here signal id now (identity_hints signal)

  add_events-Here :
      (person : ℕ) (signal : Signal) (drafts : List ScoreDraft)
      → Keeps (Beside C P) (add_events person signal drafts)
  unfolding add_events
  add_events-Here person signal [] c h = h
  add_events-Here person signal (d ∷ drafts) c h =
      add_events-Here person signal drafts _ (h.0, free.founder_events _ _ h.1)

  pub record_founder_events-Here :
      (now person : ℕ) (signal : Signal)
      → Keeps (Beside C P) (record_founder_events tools now person signal)
  unfolding record_founder_events
  record_founder_events-Here now person signal =
      bind-Keeps (Beside C P) (add_events person signal (score_events_for signal))
        (λ _. recompute_founder_score tools now person)
        (add_events-Here person signal (score_events_for signal)) (λ _. recompute-Here now person)

  remember-Here :
      (content : String) (signal : Signal) (source : ℕ) (person : Option ℕ) (company : ℕ)
      → Keeps (Beside C P) (remember tools content signal source person company)
  remember-Here content signal source person company =
      if-Keeps (Beside C P) (str_eq content "") (pure tt) _ (λ c h. h)
        (λ c h. (h.0, free.chunks _ _ h.1))

  connect_channel-Here :
      (channel : Option SourcingChannel) (signal : Signal) (person : Option ℕ) (company : ℕ)
      → Keeps (Beside C P) (connect_channel tools channel signal person company)
  connect_channel-Here none signal person company c h = h
  connect_channel-Here (some channel) signal person company c h = (h.0, free.edges _ _ h.1)

  pub record_memory-Here :
      (signal : Signal) (source : ℕ) (person : Option ℕ) (company : ℕ)
      (channel : Option SourcingChannel)
      → Keeps (Beside C P) (record_memory tools signal source person company channel)
  unfolding record_memory
  record_memory-Here signal source person company channel =
      bind-Keeps (Beside C P) (remember tools (content_of signal) signal source person company)
        (λ _. connect_channel tools channel signal person company)
        (remember-Here (content_of signal) signal source person company)
        (λ _. connect_channel-Here channel signal person company)
