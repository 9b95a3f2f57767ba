-- ===== src/Theses/Commands.antt =====
-- `validate_ranges` of backend/app/schemas/thesis.py, and the handlers of
-- backend/app/routers/theses.py.
use dolphin_vc.Base.{
  ℕ, ◌+◌, String, Bool, true, false, not, ◌&&◌, ◌||◌, Option, none, some, List, [], ◌∷◌, ◌++◌, ltb,
  ◌==◌, opt_is, if◌then◌else◌, str_eq, find_where, any_where, update_where,
}
use dolphin_vc.Errors.{ErrorCode, not_found_error, conflict_error}
use dolphin_vc.Session.{Tx, pure, query, modify, commit, or_raise, raise_if, ◌>>=◌, ◌>>◌}
use dolphin_vc.Records.{Thesis, Db, set_theses}
use dolphin_vc.Scoring.ThesisFit.{meets}

-- `ThesisCreate`
pub record ThesisCreate : Type 0 where
  pub name : String
  pub is_default : Bool
  pub sectors : List String
  pub anti_sectors : List String
  pub stages : List String
  pub geos : List String
  pub check_size_min : Option ℕ
  pub check_size_max : Option ℕ
  pub currency : String
  pub ownership_target_pct : Option ℕ
  pub risk_appetite : ℕ
  pub weights : List (String × ℕ)
  pub must_haves : List String
  pub deal_breakers : List String
  pub notes : Option String

abbrev pub exceeds : Option ℕ → Option ℕ → Bool
exceeds (some low) (some high) = ltb high low
exceeds _ _ = false

abbrev has_key : List (String × ℕ) → String → Bool
has_key weights k = any_where (λ w. str_eq w.0 k) weights

-- `key in {"founder", "market", "idea_vs_market"}`
abbrev is_axis : String → Bool
is_axis k = str_eq k "founder" || (str_eq k "market" || str_eq k "idea_vs_market")

-- The set of the keys is the set of the three axes.
abbrev names_axes : List (String × ℕ) → Bool
names_axes weights =
    not (any_where (λ w. not (is_axis w.0)) weights)
    && (has_key weights "founder" && (has_key weights "market" && has_key weights "idea_vs_market"))

-- What the validator raises, or `none`.
unfoldable pub validate_ranges : ThesisCreate → Option String
validate_ranges body =
    if exceeds body.check_size_min body.check_size_max
    then some "check_size_min cannot exceed check_size_max"
    else if meets body.sectors body.anti_sectors
    then some "a sector cannot be both included and excluded"
    else if not (names_axes body.weights)
    then some "weights must contain founder, market, and idea_vs_market"
    else none

-- The row of a body; what its other columns default to included.
abbrev pub new_thesis : ThesisCreate → ℕ → ℕ → Thesis
new_thesis body org_id id = record {
  id = id;
  org_id = org_id;
  name = body.name;
  is_default = body.is_default;
  sectors = body.sectors;
  anti_sectors = body.anti_sectors;
  stages = body.stages;
  geos = body.geos;
  check_size_min = body.check_size_min;
  check_size_max = body.check_size_max;
  currency = body.currency;
  ownership_target_pct = body.ownership_target_pct;
  risk_appetite = body.risk_appetite;
  weights = body.weights;
  must_haves = body.must_haves;
  deal_breakers = body.deal_breakers;
  notes = body.notes;
  version = 1;
  deleted_at = none;
}

abbrev pub thesis_of : ℕ → Thesis → Bool
thesis_of org_id t = t.org_id == org_id

abbrev pub thesis_is : ℕ → Thesis → Bool
thesis_is id t = t.id == id

abbrev pub owned_thesis : ℕ → ℕ → Thesis → Bool
owned_thesis org_id id t = thesis_is id t && thesis_of org_id t

abbrev pub with_default : Bool → Thesis → Thesis
with_default b t = record t { is_default = b }

-- `update(Thesis).where(Thesis.org_id == org_id).values(is_default=False)`
abbrev clear_default : ℕ → Db → Db
clear_default org_id = set_theses (update_where (thesis_of org_id) (with_default false))

-- `_get`
unfoldable get_thesis : ℕ → ℕ → Tx Db Thesis
get_thesis org_id id = do
  found ← query (λ db. find_where (owned_thesis org_id id) db.theses)
  or_raise found (not_found_error "Thesis was not found.")

-- `create_thesis`, on a body that is valid.
unfoldable pub create_thesis : ThesisCreate → ℕ → ℕ → Tx Db Thesis
create_thesis body org_id id = do
  modify (λ db. if body.is_default then clear_default org_id db else db)
  modify (set_theses (λ ts. ts ++ new_thesis body org_id id ∷ []))
  commit
  pure (new_thesis body org_id id)

-- The fields of `ThesisUpdate` that the request sets; a null, which most columns do not hold, is
-- told apart only where they do.
pub record ThesisUpdate : Type 0 where
  pub name : Option String
  pub sectors : Option (List String)
  pub anti_sectors : Option (List String)
  pub stages : Option (List String)
  pub geos : Option (List String)
  pub check_size_min : Option (Option ℕ)
  pub check_size_max : Option (Option ℕ)
  pub currency : Option String
  pub ownership_target_pct : Option (Option ℕ)
  pub risk_appetite : Option ℕ
  pub weights : Option (List (String × ℕ))
  pub must_haves : Option (List String)
  pub deal_breakers : Option (List String)
  pub notes : Option (Option String)

abbrev or_keep {ℓ} : {A : Type ℓ} → Option A → A → A
or_keep none a = a
or_keep (some b) a = b

unfoldable pub revised : ThesisUpdate → Thesis → Thesis
revised body t = record t {
  name = or_keep body.name t.name;
  sectors = or_keep body.sectors t.sectors;
  anti_sectors = or_keep body.anti_sectors t.anti_sectors;
  stages = or_keep body.stages t.stages;
  geos = or_keep body.geos t.geos;
  check_size_min = or_keep body.check_size_min t.check_size_min;
  check_size_max = or_keep body.check_size_max t.check_size_max;
  currency = or_keep body.currency t.currency;
  ownership_target_pct = or_keep body.ownership_target_pct t.ownership_target_pct;
  risk_appetite = or_keep body.risk_appetite t.risk_appetite;
  weights = or_keep body.weights t.weights;
  must_haves = or_keep body.must_haves t.must_haves;
  deal_breakers = or_keep body.deal_breakers t.deal_breakers;
  notes = or_keep body.notes t.notes;
  version = t.version + 1;
}

-- `update_thesis`; `if_match` as in `update_opportunity`.
unfoldable pub update_thesis : ℕ → ℕ → ThesisUpdate → Option ℕ → Tx Db (Unit {0})
unfolding get_thesis
update_thesis org_id id body if_match = do
  t ← get_thesis org_id id
  raise_if (not (opt_is if_match t.version))
      (conflict_error "Thesis version is stale or If-Match is missing." ErrorCode.stale_version)
  modify (set_theses (update_where (thesis_is t.id) (revised body)))
  commit

abbrev pub deleted : ℕ → Thesis → Thesis
deleted now t = record t { deleted_at = some now; is_default = false }

unfoldable pub delete_thesis : ℕ → ℕ → ℕ → Tx Db (Unit {0})
unfolding get_thesis
delete_thesis org_id id now = do
  t ← get_thesis org_id id
  modify (set_theses (update_where (thesis_is t.id) (deleted now)))
  commit

-- `set_default`; a deleted thesis is not refused.
unfoldable pub set_default : ℕ → ℕ → Tx Db (Unit {0})
unfolding get_thesis
set_default org_id id = do
  t ← get_thesis org_id id
  modify (clear_default org_id)
  modify (set_theses (update_where (thesis_is t.id) (with_default true)))
  commit
