-- ===== src/Tests/Editing.antt =====
-- Memos that are edited: the latest one, and one that has a successor.
use dolphin_vc.Base.{find_where, any_where}
use dolphin_vc.Errors.{err, ok}
use dolphin_vc.Memo.Handlers.{conflicting}
use dolphin_vc.Base.{
  Option, ℕ, ◌≤◌, ◌≡◌, refl, String, none, some, [], ◌∷◌, map, arith, find_where, update_where,
  count_where, select_where,
}
use dolphin_vc.Errors.{ok}
use dolphin_vc.Session.{request}
use dolphin_vc.Records.{Memo, Section, Db, empty_db}
use dolphin_vc.Memo.Handlers.{
  VersionNumber, memo_is, edited, with_sections, newest, patch_memo, get_opportunity_memo,
}
use dolphin_vc.Memo.Reading.{get_opportunity_memo-patch_memo}
use dolphin_vc.Tests.Fixtures.{analyst}
use dolphin_vc.Tests.Screening.{deal}

abbrev memo : ℕ → ℕ → Memo
memo id version = record {
  id = id;
  org_id = 7;
  opportunity_id = 11;
  version = version;
  status = "complete";
  sections = [];
  recommendation = none;
  recommendation_rationale = none;
  bear_case = none;
  kill_criteria = [];
  gaps = [];
  trust_summary = [];
  word_count = none;
  model_version = none;
}

abbrev snapshot : Section
snapshot = record {
  key = "company_snapshot";
  title = "Company Snapshot";
  markdown = "rewritten";
  claim_ids = [];
  gaps = [];
  edited_by = none;
  edited_at = none;
}

abbrev with_memos : Db
with_memos = record empty_db { opportunities = deal ∷ []; memos = memo 60 1 ∷ memo 61 2 ∷ [] }

abbrev second : Memo
second = with_sections (edited (some 1) 50 snapshot ∷ []) (memo 61 2)

abbrev after_edit : Db
after_edit = record with_memos { memos = memo 60 1 ∷ second ∷ [] }

latest_is_edited :
    request (patch_memo analyst 61 (snapshot ∷ []) (some 2) 50) with_memos ≡ (ok second, after_edit)
unfolding patch_memo find_where update_where any_where
latest_is_edited = refl

one_memo : count_where (memo_is 61) with_memos.memos ≤ 1
unfolding count_where
one_memo = ground arith

older_is_refused :
    request (patch_memo analyst 60 (snapshot ∷ []) (some 1) 50) with_memos
    ≡ (err conflicting, with_memos)
unfolding patch_memo find_where update_where any_where
older_is_refused = refl

abbrev int : String → Option VersionNumber
int s = none

second_is_latest : (request (get_opportunity_memo int 7 11 "latest") with_memos).0 ≡ ok (memo 61 2)
unfolding get_opportunity_memo newest find_where select_where
second_is_latest = refl

get_opportunity_memo-patch_memo_example :
    ((request (get_opportunity_memo int 7 11 "latest") after_edit).0 ≡ ok second)
    × (second.sections ≡ map (edited (some 1) 50) (snapshot ∷ []))
    × (second.version ≡ 3)
get_opportunity_memo-patch_memo_example =
    get_opportunity_memo-patch_memo int analyst 11 (memo 61 2) second (snapshot ∷ []) (some 2) 50
      with_memos after_edit second_is_latest latest_is_edited one_memo
