-- ===== src/Memo/Handlers.antt =====
-- The handlers of backend/app/routers/memos.py. A section that an editor sends is read as the fields
-- that a section of a memo has; `int` is the reading of a version that is not `latest`.
use dolphin_vc.Base.{
  any_where, ℕ, ◌+◌, String, Bool, false, ◌&&◌, Option, none, some, List, [], ◌∷◌, ◌++◌, map, ltb,
  ◌==◌, opt_is, not, if◌then◌else◌, str_eq, find_where, select_where, update_where,
}
use dolphin_vc.Types.{JobStatus}
use dolphin_vc.Errors.{AppError, ErrorCode, app_error, not_found_error, conflict_error}
use dolphin_vc.Session.{Tx, pure, raise, query, modify, commit, or_raise, raise_if, ◌>>=◌, ◌>>◌}
use dolphin_vc.Auth.Model.{Principal}
use dolphin_vc.Records.{
  Memo, Section, Claim, Evidence, Job, JobInput, not_exported, Db, set_memos, set_jobs,
}
use dolphin_vc.Opportunities.Commands.{get_opportunity, key_required}
use dolphin_vc.Jobs.Queue.{JobRequest, create_job}
use dolphin_vc.Pipeline.Screen.{memo_of}

abbrev pub owned_memo : ℕ → ℕ → Memo → Bool
owned_memo org_id id m = m.id == id && m.org_id == org_id

-- `_memo`
unfoldable get_memo : ℕ → ℕ → Tx Db Memo
get_memo org_id id = do
  found ← query (λ db. find_where (owned_memo org_id id) db.memos)
  or_raise found (not_found_error "Memo was not found.")

-- `int(version)`
pub data VersionNumber : Type 0 where
  natural : ℕ → VersionNumber
  negative : ℕ → VersionNumber

abbrev is_version : VersionNumber → ℕ → Bool
is_version (natural n) version = version == n
is_version (negative _) version = false

abbrev pub of_opportunity : ℕ → ℕ → Memo → Bool
of_opportunity org_id opportunity m = memo_of opportunity m && m.org_id == org_id

-- `order_by(Memo.version.desc()).limit(1)`: the first of the highest
unfoldable pub newest : List Memo → Option Memo
newest [] = none
newest (m ∷ memos) = elim (newest memos) [
  | none ↦ some m
  | some n ↦ if ltb m.version n.version then some n else some m
]

abbrev memo_or : Option Memo → Tx Db Memo
memo_or found = or_raise found (not_found_error "Memo was not found.")

abbrev version_invalid : AppError
version_invalid = app_error ErrorCode.validation_error "version must be 'latest' or an integer" 400

abbrev memo_at : ℕ → ℕ → Option VersionNumber → Tx Db Memo
memo_at org_id opportunity none = raise version_invalid
memo_at org_id opportunity (some n) = do
  found ← query (λ db.
      find_where (λ m. of_opportunity org_id opportunity m && is_version n m.version) db.memos)
  memo_or found

-- `get_opportunity_memo`
unfoldable pub get_opportunity_memo : (String → Option VersionNumber) → ℕ → ℕ → String → Tx Db Memo
unfolding get_opportunity newest
get_opportunity_memo int org_id opportunity version = do
  get_opportunity org_id opportunity
  if str_eq version "latest"
      then (do
        found ← query (λ db. newest (select_where (of_opportunity org_id opportunity) db.memos))
        memo_or found)
      else memo_at org_id opportunity (int version)

abbrev empty_input : JobInput
empty_input = record {
  opportunity_id = none;
  application_id = none;
  document_id = none;
  retry_of = none;
  signal_id = none;
  is_public = none;
  query = none;
  limit = none;
  channels = none;
  memo_id = none;
  section = none;
  format = none;
}

abbrev regeneration : Memo → ℕ → String → String → JobRequest
regeneration m org_id section key = record {
  org_id = org_id;
  kind = "memo";
  target_type = "opportunity";
  target_id = m.opportunity_id;
  idempotency_key = key;
  input = record empty_input { memo_id = some m.id; section = some section };
}

abbrev given_key : Option String → Tx Db String
given_key none = raise key_required
given_key (some key) = if str_eq key "" then raise key_required else pure key

-- `regenerate_section`: the job, and whether it is dispatched; a replayed one is not.
unfoldable regenerate_section : ℕ → ℕ → String → Option String → ℕ → ℕ → Tx Db (ℕ × Bool)
unfolding get_memo create_job
regenerate_section org_id id section idempotency_key now job_id = do
  m ← get_memo org_id id
  key ← given_key idempotency_key
  out ← create_job (regeneration m org_id section key) now job_id
  commit
  pure (out.0.id, not out.1)

-- `{**section, "edited_by": ..., "edited_at": ...}`
abbrev pub edited : Option ℕ → ℕ → Section → Section
edited user_id now s = record s { edited_by = user_id; edited_at = some now }

abbrev pub with_sections : List Section → Memo → Memo
with_sections sections m = record m { sections = sections; version = m.version + 1 }

abbrev pub memo_is : ℕ → Memo → Bool
memo_is id m = m.id == id

abbrev stale_memo : AppError
stale_memo = conflict_error "Memo version is stale or If-Match is missing." ErrorCode.stale_version

-- The memos that the unique constraint on the opportunity and the version refuses another of
-- (backend/app/db/models.py).
abbrev pub has_version : ℕ → ℕ → Memo → Bool
has_version opportunity n m = (m.opportunity_id == opportunity) && (m.version == n)

-- What `handle_integrity` of backend/app/errors.py answers when a commit is refused.
abbrev pub conflicting : AppError
conflicting = conflict_error "The request conflicts with an existing resource." ErrorCode.conflict

-- `patch_memo`; `if_match` is the header without its quotes, as the number whose text it is.
unfoldable pub patch_memo : Principal → ℕ → List Section → Option ℕ → ℕ → Tx Db Memo
unfolding get_memo
patch_memo principal id body if_match now = do
  m ← get_memo principal.org_id id
  raise_if (not (opt_is if_match m.version)) stale_memo
  let sections = map (edited principal.user_id now) body
  clash ← query (λ db. any_where (has_version m.opportunity_id (m.version + 1)) db.memos)
  modify (set_memos (update_where (memo_is m.id) (with_sections sections)))
  raise_if clash conflicting
  commit
  pure (with_sections sections m)

abbrev export_job : Memo → ℕ → String → ℕ → ℕ → Job
export_job m org_id format now job_id = record {
  id = job_id;
  org_id = some org_id;
  kind = "memo.export";
  status = JobStatus.succeeded;
  target_type = some "memo";
  target_id = some m.id;
  idempotency_key = none;
  progress = 100;
  current_step = none;
  input = record empty_input { format = some format };
  result = some not_exported;
  error_code = none;
  error_message = none;
  attempts = 0;
  started_at = some now;
  finished_at = some now;
  heartbeat_at = none;
  created_at = now;
}

-- `export_memo`
unfoldable export_memo : ℕ → ℕ → String → ℕ → ℕ → Tx Db ℕ
unfolding get_memo
export_memo org_id id format now job_id = do
  m ← get_memo org_id id
  modify (set_jobs (λ js. js ++ export_job m org_id format now job_id ∷ []))
  commit
  pure job_id

abbrev claims_opportunity : ℕ → Claim → Bool
claims_opportunity opportunity c = c.opportunity_id == opportunity

abbrev evidence_of : ℕ → Evidence → Bool
evidence_of claim e = e.claim_id == claim

-- `memo_citations`: the claims of the memo's opportunity, each with its evidence.
unfoldable memo_citations : ℕ → ℕ → Tx Db (List (Claim × List Evidence))
unfolding get_memo
memo_citations org_id id = do
  m ← get_memo org_id id
  query (λ db.
      map (λ (c : Claim). (c, select_where (evidence_of c.id) db.evidence))
        (select_where (claims_opportunity m.opportunity_id) db.claims))
