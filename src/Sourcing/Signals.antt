-- ===== src/Sourcing/Signals.antt =====
-- `_record_founder_events`, `_record_memory` and `resolve_outbound_signal` of
-- backend/app/services/ingestion.py.
use dolphin_vc.Sourcing.Events.{score_events_for, insert_unless, add_events}
use dolphin_vc.Base.{
  ℕ, ◌+◌, String, Bool, true, false, ◌&&◌, Option, none, some, List, [], ◌∷◌, ◌==◌, if◌then◌else◌,
  str_eq, opt_is, find_where, update_where, length,
}
use dolphin_vc.Base.Text.{split, join, strip}
use dolphin_vc.Types.{OpportunityOrigin}
use dolphin_vc.Session.{Tx, pure, query, modify, ◌>>=◌, ◌>>◌}
use dolphin_vc.Records.{
  Db, Person, Company, Opportunity, Signal, SourcingChannel, ChannelEdge, KbChunk, set_chunks,
  set_edges, set_signals, set_channels,
}
use dolphin_vc.Opportunities.Commands.{live_for}
use dolphin_vc.Opportunities.Creation.{CreationDraw, new_opportunity, add_opportunity}
use dolphin_vc.Sourcing.Names.{Tools}
use dolphin_vc.Sourcing.Founders.{recompute_founder_score}
use dolphin_vc.Sourcing.People.{ensure_affiliation, ensure_signal_person}
use dolphin_vc.Sourcing.Companies.{ensure_company}

abbrev pub person_id_of : Option Person → Option ℕ
person_id_of none = none
person_id_of (some p) = some p.id

abbrev same_id : Option ℕ → Option ℕ → Bool
same_id none none = true
same_id (some a) (some b) = a == b
same_id _ _ = false

abbrev edge_for : ℕ → Option ℕ → ℕ → ChannelEdge → Bool
edge_for channel person company e =
    e.channel_id == channel && (same_id e.person_id person && opt_is e.company_id company)

-- `signal.strength or Decimal("0.5")`
abbrev strength_or : Option ℕ → ℕ
strength_or none = 500
strength_or (some s) = if s == 0 then 500 else s

abbrev new_edge : ℕ → Option ℕ → ℕ → Signal → ChannelEdge
new_edge channel person company signal = record {
  channel_id = channel;
  person_id = person;
  company_id = some company;
  weight = strength_or signal.strength;
}

abbrev memory_of : Tools → Signal → ℕ → Option ℕ → ℕ → String → KbChunk
memory_of tools signal source person company content = record {
  org_id = some signal.org_id;
  scope = "signal";
  person_id = person;
  company_id = some company;
  signal_id = some signal.id;
  chunk_index = 0;
  title = signal.title;
  content = content;
  content_hash = tools.stable_hash signal.id content;
  token_count = length (split content);
  source_id = some source;
  source_url = signal.url;
  observed_at = some signal.observed_at;
}

abbrev filled : Option String → List String → List String
filled none rest = rest
filled (some s) rest = if str_eq s "" then rest else s ∷ rest

-- The title and the body, where they are there, on a line each.
unfoldable pub content_of : Signal → String
unfolding strip join
content_of signal = strip (join "\n" (filled signal.title (filled signal.body [])))

abbrev chunk_of_signal : ℕ → KbChunk → Bool
chunk_of_signal signal c = opt_is c.signal_id signal

abbrev pub channel_is : ℕ → SourcingChannel → Bool
channel_is id c = c.id == id

-- The ids that a signal draws for its rows, and the clock.
pub record SignalDraw : Type 0 where
  pub person_id : ℕ
  pub creation : CreationDraw

pub record ResolvedSignal : Type 0 where
  pub person : Option Person
  pub company : Company
  pub opportunity : Opportunity
  pub opportunity_created : Bool

module _ (tools : Tools) where
  -- `_record_founder_events`
  unfoldable pub record_founder_events : ℕ → ℕ → Signal → Tx Db (Unit {0})
  unfolding add_events recompute_founder_score score_events_for
  record_founder_events now person signal = do
    add_events person signal (score_events_for signal)
    recompute_founder_score tools now person

  abbrev pub remember : String → Signal → ℕ → Option ℕ → ℕ → Tx Db (Unit {0})
  remember content signal source person company = if str_eq content "" then pure tt else do
    exists ← query (λ db. find_where (chunk_of_signal signal.id) db.chunks)
    modify
        (set_chunks (insert_unless exists (memory_of tools signal source person company content)))

  abbrev pub connect_channel : Option SourcingChannel → Signal → Option ℕ → ℕ → Tx Db (Unit {0})
  connect_channel none signal person company = pure tt
  connect_channel (some channel) signal person company = do
    edge ← query (λ db. find_where (edge_for channel.id person company) db.edges)
    modify (set_edges (insert_unless edge (new_edge channel.id person company signal)))

  -- `_record_memory`
  unfoldable pub record_memory :
      Signal → ℕ → Option ℕ → ℕ → Option SourcingChannel → Tx Db (Unit {0})
  unfolding content_of split
  record_memory signal source person company channel = do
    remember (content_of signal) signal source person company
    connect_channel channel signal person company

  abbrev pub advance : Option SourcingChannel → Tx Db (Unit {0})
  advance none = pure tt
  advance (some channel) = modify (
      set_channels (
        update_where (channel_is channel.id)
          (λ c. record c { advanced_count = c.advanced_count + 1 })))

  abbrev pub outbound : CreationDraw → Signal → Company → Opportunity
  outbound draw signal company =
      new_opportunity draw signal.org_id company OpportunityOrigin.outbound none signal.observed_at

  -- The live opportunity of the company, or a new one; and whether it is new.
  unfoldable pub opportunity_or :
      Option Opportunity
      → CreationDraw
      → Signal
      → Company
      → Option SourcingChannel
      → Tx Db (Opportunity × Bool)
  opportunity_or (some o) draw signal company channel = pure (o, false)
  opportunity_or none draw signal company channel = do
    modify (add_opportunity (outbound draw signal company))
    advance channel
    pure (outbound draw signal company, true)

  unfoldable pub ensure_opportunity :
      CreationDraw → Signal → Company → Option SourcingChannel → Tx Db (Opportunity × Bool)
  unfolding opportunity_or
  ensure_opportunity draw signal company channel = do
    live ← query (λ db. find_where (live_for signal.org_id company.id) db.opportunities)
    opportunity_or live draw signal company channel

  abbrev pub signal_is : ℕ → Signal → Bool
  signal_is id s = s.id == id

  -- What the person of a signal gets of it.
  unfoldable pub credit : ℕ → Signal → Company → Option Person → Tx Db (Unit {0})
  unfolding ensure_affiliation record_founder_events
  credit now signal company none = pure tt
  credit now signal company (some p) = do
    modify
        (set_signals (update_where (signal_is signal.id) (λ s. record s { person_id = some p.id })))
    ensure_affiliation p.id company.id 650
    record_founder_events now p.id signal

  abbrev pub resolved_as : Option Person → Company → Opportunity × Bool → ResolvedSignal
  resolved_as person company (opportunity, created) = record {
    person = person;
    company = company;
    opportunity = opportunity;
    opportunity_created = created;
  }

  -- What follows of the signal's memory and opportunity, and before it of its person.
  unfoldable pub settle :
      SignalDraw
      → Signal
      → ℕ
      → Option SourcingChannel
      → Company
      → Option Person
      → Tx Db ResolvedSignal
  unfolding record_memory ensure_opportunity
  settle draw signal source channel company person = do
    record_memory signal source (person_id_of person) company.id channel
    made ← ensure_opportunity draw.creation signal company channel
    pure (resolved_as person company made)

  unfoldable pub attach :
      SignalDraw
      → Signal
      → ℕ
      → Option SourcingChannel
      → Company
      → Option Person
      → Tx Db ResolvedSignal
  unfolding credit settle
  attach draw signal source channel company person = do
    modify (
        set_signals
          (update_where (signal_is signal.id) (λ s. record s { company_id = some company.id })))
    credit draw.creation.now signal company person
    settle draw signal source channel company person

  unfoldable pub find_person :
      SignalDraw → Signal → ℕ → Option SourcingChannel → Company → Tx Db ResolvedSignal
  unfolding ensure_signal_person attach
  find_person draw signal source channel company = do
    person ← ensure_signal_person tools signal draw.person_id draw.creation.now
    attach draw signal source channel company person

  -- `resolve_outbound_signal`
  unfoldable pub resolve_outbound_signal :
      SignalDraw → Signal → ℕ → Option SourcingChannel → Tx Db ResolvedSignal
  unfolding ensure_company find_person
  resolve_outbound_signal draw signal source channel = do
    company ← ensure_company tools draw.creation.company_id signal
    find_person draw signal source channel company
