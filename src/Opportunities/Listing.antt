-- ===== src/Opportunities/Listing.antt =====
-- `list_opportunities` of backend/app/services/opportunities.py. What `encode_cursor` and
-- `decode_cursor` do by the dates and base64 of Python is a parameter, as is the match of a search text.
-- The rows are filtered by the cursor behind their order, which SQL leaves open.
use dolphin_vc.Types.{OpportunityStage, OpportunityOrigin}
use dolphin_vc.Records.{Db, Opportunity}
use dolphin_vc.Errors.{ErrorCode, ok, err, app_error, Result, AppError}
use dolphin_vc.Base.{
  suc, ℕ, ◌+◌, ◌*◌, String, Bool, true, false, ◌&&◌, ◌||◌, Option, none, some, List, [], ◌∷◌, ltb,
  ◌==◌, if◌then◌else◌, is_none, select_where, length,
}
use dolphin_vc.Base.Text.{take}

-- The sort key of a row: `updated_at` and the id.
abbrev pub key : Opportunity → ℕ × ℕ
key o = (o.updated_at, o.id)

-- The row stands behind the key in the order of the list.
abbrev pub older : ℕ × ℕ → Opportunity → Bool
older (timestamp, id) o = ltb o.updated_at timestamp || ((o.updated_at == timestamp) && ltb o.id id)

-- `order_by(Opportunity.updated_at.desc(), Opportunity.id.desc())`
unfoldable pub put : Opportunity → List Opportunity → List Opportunity
put o [] = o ∷ []
put o (x ∷ rows) = let rest = put o rows in if older (key o) x then o ∷ x ∷ rows else x ∷ rest

unfoldable pub newest_first : List Opportunity → List Opportunity
unfolding put
newest_first [] = []
newest_first (o ∷ rows) = put o (newest_first rows)

-- What the request asks for.
pub record Filter : Type 0 where
  pub stage : Option OpportunityStage
  pub origin : Option OpportunityOrigin
  pub q : Option String
  pub sla_risk : Bool

abbrev same_stage : OpportunityStage → OpportunityStage → Bool
same_stage OpportunityStage.sourced OpportunityStage.sourced = true
same_stage OpportunityStage.screening OpportunityStage.screening = true
same_stage OpportunityStage.screened OpportunityStage.screened = true
same_stage OpportunityStage.diligence OpportunityStage.diligence = true
same_stage OpportunityStage.decision OpportunityStage.decision = true
same_stage OpportunityStage.decided OpportunityStage.decided = true
same_stage OpportunityStage.archived OpportunityStage.archived = true
same_stage _ _ = false

abbrev same_origin : OpportunityOrigin → OpportunityOrigin → Bool
same_origin OpportunityOrigin.inbound OpportunityOrigin.inbound = true
same_origin OpportunityOrigin.outbound OpportunityOrigin.outbound = true
same_origin OpportunityOrigin.manual OpportunityOrigin.manual = true
same_origin _ _ = false

abbrev unless_given {ℓ} : {A : Type ℓ} → Option A → (A → Bool) → Bool
unless_given none test = true
unless_given (some a) test = test a

-- The deadline of an undecided opportunity is less than four hours away.
abbrev is_at_risk : ℕ → Opportunity → Bool
is_at_risk now o =
    is_none o.decided_at && (ltb now o.sla_deadline_at && ltb o.sla_deadline_at (now + 4 * 3600))

-- The conditions of the query; `matches` tells whether the company of an opportunity, which has to be
-- there, matches a text.
unfoldable pub selects : (Option String → Opportunity → Bool) → ℕ → Filter → ℕ → Opportunity → Bool
selects matches org_id f now o =
    (o.org_id == org_id)
    && (matches f.q o
        && (unless_given f.stage (same_stage o.stage)
            && (unless_given f.origin (same_origin o.origin)
                && (if f.sla_risk then is_at_risk now o else true))))

-- An empty text is false.
abbrev pub is_falsy : String → Bool
is_falsy String.[] = true
is_falsy (String.◌∷◌ c s) = false

-- `rows[-1]`
abbrev pub last_of : Opportunity → List Opportunity → Opportunity
last_of o [] = o
last_of o (x ∷ rows) = last_of x rows

pub record Page : Type 0 where
  pub items : List Opportunity
  pub next_cursor : Option String

module _ (encode : ℕ × ℕ → String) (decode : String → Option (ℕ × ℕ)) where
  abbrev cursor_of : List Opportunity → Option String
  cursor_of [] = none
  cursor_of (o ∷ rows) = some (encode (key (last_of o rows)))

  -- A page out of the rows that the query gave, one more than the page holds at most.
  unfoldable pub cut_page : ℕ → List Opportunity → Page
  unfolding take
  cut_page limit rows = record {
    items = take limit rows;
    next_cursor = if ltb limit (length rows) then cursor_of (take limit rows) else none;
  }

  abbrev invalid_cursor : AppError
  invalid_cursor = app_error ErrorCode.validation_error "Invalid pagination cursor." 400

  abbrev pub behind_key : List Opportunity → Option (ℕ × ℕ) → Result (List Opportunity)
  behind_key rows none = err invalid_cursor
  behind_key rows (some k) = ok (select_where (older k) rows)

  -- The rows behind a cursor; an empty one is no cursor.
  unfoldable pub behind : Option String → List Opportunity → Result (List Opportunity)
  behind none rows = ok rows
  behind (some cursor) rows = if is_falsy cursor then ok rows else behind_key rows (decode cursor)

  abbrev pub paged : ℕ → Result (List Opportunity) → Result Page
  paged limit (err e) = err e
  paged limit (ok rows) = ok (cut_page limit (take (suc limit) rows))

  -- The page of the ordered rows behind a cursor.
  unfoldable pub page_behind : ℕ → Option String → List Opportunity → Result Page
  unfolding cut_page behind
  page_behind limit cursor rows = paged limit (behind cursor rows)

  -- `list_opportunities`, less the cards and the facets of the rows
  unfoldable pub list_opportunities :
      (Option String → Opportunity → Bool) → ℕ → Filter → ℕ → Option String → ℕ → Db → Result Page
  unfolding page_behind newest_first selects
  list_opportunities matches org_id f now cursor limit db =
      page_behind limit cursor
        (newest_first (select_where (selects matches org_id f now) db.opportunities))
