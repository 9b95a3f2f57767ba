-- ===== src/Records.antt =====
-- The database that screening works on (backend/app/db/models.py), a list of rows for each table.
mod Screening
mod Documents
mod People
pub use Screening.*
pub use Documents.*
pub use People.*
use dolphin_vc.Base.{List, []}

pub record Db : Type 0 where
  pub companies : List Company
  pub theses : List Thesis
  pub applications : List Application
  pub opportunities : List Opportunity
  pub scores : List OpportunityScore
  pub claims : List Claim
  pub evidence : List Evidence
  pub jobs : List Job
  pub agent_steps : List AgentStep
  pub audit_log : List AuditLog
  pub outreach : List Outreach
  pub documents : List Document
  pub pages : List DocumentPage
  pub memos : List Memo
  pub prescreens : List PrescreenResult
  pub persons : List Person
  pub affiliations : List Affiliation
  pub founder_scores : List FounderScore
  pub founder_events : List FounderScoreEvent
  pub snapshots : List FounderScoreSnapshot
  pub sources : List Source
  pub signals : List Signal
  pub channels : List SourcingChannel
  pub edges : List ChannelEdge
  pub chunks : List KbChunk

abbrev pub empty_db : Db
empty_db = record {
  companies = [];
  theses = [];
  applications = [];
  opportunities = [];
  scores = [];
  claims = [];
  evidence = [];
  jobs = [];
  agent_steps = [];
  audit_log = [];
  outreach = [];
  documents = [];
  pages = [];
  memos = [];
  prescreens = [];
  persons = [];
  affiliations = [];
  founder_scores = [];
  founder_events = [];
  snapshots = [];
  sources = [];
  signals = [];
  channels = [];
  edges = [];
  chunks = [];
}

abbrev pub set_opportunities : (List Opportunity → List Opportunity) → Db → Db
set_opportunities f db = record db { opportunities = f db.opportunities }

abbrev pub set_jobs : (List Job → List Job) → Db → Db
set_jobs f db = record db { jobs = f db.jobs }

abbrev pub set_theses : (List Thesis → List Thesis) → Db → Db
set_theses f db = record db { theses = f db.theses }

abbrev pub set_outreach : (List Outreach → List Outreach) → Db → Db
set_outreach f db = record db { outreach = f db.outreach }

abbrev pub set_companies : (List Company → List Company) → Db → Db
set_companies f db = record db { companies = f db.companies }

abbrev pub set_applications : (List Application → List Application) → Db → Db
set_applications f db = record db { applications = f db.applications }

abbrev pub set_scores : (List OpportunityScore → List OpportunityScore) → Db → Db
set_scores f db = record db { scores = f db.scores }

abbrev pub set_claims : (List Claim → List Claim) → Db → Db
set_claims f db = record db { claims = f db.claims }

abbrev pub set_evidence : (List Evidence → List Evidence) → Db → Db
set_evidence f db = record db { evidence = f db.evidence }

abbrev pub set_agent_steps : (List AgentStep → List AgentStep) → Db → Db
set_agent_steps f db = record db { agent_steps = f db.agent_steps }

abbrev pub set_documents : (List Document → List Document) → Db → Db
set_documents f db = record db { documents = f db.documents }

abbrev pub set_memos : (List Memo → List Memo) → Db → Db
set_memos f db = record db { memos = f db.memos }

abbrev pub set_prescreens : (List PrescreenResult → List PrescreenResult) → Db → Db
set_prescreens f db = record db { prescreens = f db.prescreens }

abbrev pub set_persons : (List Person → List Person) → Db → Db
set_persons f db = record db { persons = f db.persons }

abbrev pub set_affiliations : (List Affiliation → List Affiliation) → Db → Db
set_affiliations f db = record db { affiliations = f db.affiliations }

abbrev pub set_founder_scores : (List FounderScore → List FounderScore) → Db → Db
set_founder_scores f db = record db { founder_scores = f db.founder_scores }

abbrev pub set_founder_events : (List FounderScoreEvent → List FounderScoreEvent) → Db → Db
set_founder_events f db = record db { founder_events = f db.founder_events }

abbrev pub set_snapshots : (List FounderScoreSnapshot → List FounderScoreSnapshot) → Db → Db
set_snapshots f db = record db { snapshots = f db.snapshots }

abbrev pub set_sources : (List Source → List Source) → Db → Db
set_sources f db = record db { sources = f db.sources }

abbrev pub set_signals : (List Signal → List Signal) → Db → Db
set_signals f db = record db { signals = f db.signals }

abbrev pub set_channels : (List SourcingChannel → List SourcingChannel) → Db → Db
set_channels f db = record db { channels = f db.channels }

abbrev pub set_edges : (List ChannelEdge → List ChannelEdge) → Db → Db
set_edges f db = record db { edges = f db.edges }

abbrev pub set_chunks : (List KbChunk → List KbChunk) → Db → Db
set_chunks f db = record db { chunks = f db.chunks }
