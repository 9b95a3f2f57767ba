-- ===== src/Scoring/ThesisFit.antt =====
-- backend/app/services/score/thesis.py. The score is in hundredths. The rounding of a quotient to
-- two decimals is a parameter, `round numerator denominator` in hundredths.
use dolphin_vc.Base.{
  ℕ, ◌+◌, ◌*◌, String, Bool, true, false, not, ◌&&◌, ◌||◌, Option, none, some, List, [], ◌∷◌, map,
  if◌then◌else◌, length, str_eq, any_where, count_where,
}
use dolphin_vc.Base.Text.{contains, split, take}

-- One must-have rule, and whether the company's text covers it.
pub record Coverage : Type 0 where
  pub rule : String
  pub satisfied : Bool

pub record ThesisFitResult : Type 0 where
  pub score : ℕ
  pub gate_reason : Option String
  pub must_have_coverage : List Coverage

-- What `compute_thesis_fit` is told of the company and of the thesis.
pub record FitInput : Type 0 where
  pub company_sectors : List String
  pub company_stage : Option String
  pub company_country : Option String
  pub thesis_sectors : List String
  pub anti_sectors : List String
  pub stages : List String
  pub geos : List String
  pub must_haves : List String
  pub company_text : String

-- The truth value of a list.
abbrev nonempty {ℓ} : {A : Type ℓ} → List A → Bool
nonempty [] = false
nonempty (_ ∷ _) = true

abbrev member : String → List String → Bool
member x = any_where (str_eq x)

-- The truth value of `left & right`.
abbrev pub meets : List String → List String → Bool
meets left right = any_where (λ x. member x right) left

abbrev gated : String → ThesisFitResult
gated reason = record { score = 0; gate_reason = some reason; must_have_coverage = [] }

-- The score out of the points of the matches and the share of the rules that are covered.
unfoldable pub fit_score : (ℕ → ℕ → ℕ) → ℕ → List Coverage → ℕ
fit_score round points [] = round (points + 2000) 1
fit_score round points coverage =
    round (points * length coverage + 2000 * count_where (λ c. c.satisfied) coverage)
      (length coverage)

module _ (casefold : String → String) where
  abbrev fold : List String → List String
  fold = map casefold

  abbrev sectors_meet : List String → FitInput → Bool
  sectors_meet others i = meets (fold i.company_sectors) (fold others)

  abbrev pub fails_anti : FitInput → Bool
  fails_anti i = sectors_meet i.anti_sectors i

  abbrev pub fails_sector : FitInput → Bool
  fails_sector i =
      nonempty i.thesis_sectors
      && (nonempty i.company_sectors && not (sectors_meet i.thesis_sectors i))

  -- A text that is given lies outside a list that is not empty; the empty text counts as missing.
  abbrev outside : Option String → List String → Bool
  outside none allowed = false
  outside (some x) allowed =
      nonempty allowed && (not (str_eq x "") && not (member (casefold x) (fold allowed)))

  abbrev pub fails_stage : FitInput → Bool
  fails_stage i = outside i.company_stage i.stages

  abbrev pub fails_geo : FitInput → Bool
  fails_geo i = outside i.company_country i.geos && not (member "remote" (fold i.geos))

  all_contained : String → List String → Bool
  all_contained text [] = true
  all_contained text (token ∷ tokens) = contains token text && all_contained text tokens

  unfoldable pub covers : String → String → Coverage
  unfolding all_contained
  covers folded rule = record {
    rule = rule;
    satisfied = all_contained folded (take 3 (split (casefold rule)));
  }

  -- The points of the three matches, in hundredths of 80: 40, 25 and 15, or half.
  abbrev half_unless : Bool → ℕ → ℕ
  half_unless b points = if b then 2 * points else points

  unfoldable pub match_points : FitInput → ℕ
  match_points i =
      half_unless (not (nonempty i.thesis_sectors) || sectors_meet i.thesis_sectors i) 2000
      + half_unless (not (outside i.company_stage i.stages)) 1250
      + half_unless (not (outside i.company_country i.geos)) 750

  unfoldable pub compute_thesis_fit : (ℕ → ℕ → ℕ) → FitInput → ThesisFitResult
  compute_thesis_fit round i =
      if fails_anti i
      then gated "Company matches an excluded sector."
      else if fails_sector i
      then gated "Company is outside the thesis sectors."
      else if fails_stage i
      then gated "Company stage is outside the thesis."
      else if fails_geo i
      then gated "Company geography is outside the thesis."
      else let coverage = map (covers (casefold i.company_text)) i.must_haves in
        record {
          score = fit_score round (match_points i) coverage;
          gate_reason = none;
          must_have_coverage = coverage;
        }
