-- ===== src/Extraction/Claims.antt =====
-- `extract_claims` of backend/app/services/extraction.py, `looks_like_prompt_injection` of
-- backend/app/services/security.py and `_product_claim` of backend/app/services/pipeline.py. The
-- search of a pattern in a line is a parameter, as are case folding and the reading of a decimal
-- number. Values are in ten-thousandths and confidences in thousandths.
use Prim.Native.Char.{code}
use dolphin_vc.Base.{
  ℕ, ◌*◌, String, Bool, false, ◌||◌, Option, none, some, List, [], ◌∷◌, ◌++◌, leb, if◌then◌else◌,
  str_eq, any_where, ◌==◌,
}
use dolphin_vc.Base.Text.{contains, strip, split_lines, first_chars, char_count}
use dolphin_vc.Types.{ClaimCategory}
use dolphin_vc.Extraction.Deck.{ParsedPage}

-- `locator` is the page and the snippet.
pub record ExtractedClaim : Type 0 where
  pub category : ClaimCategory
  pub predicate : String
  pub text : String
  pub value_num : Option ℕ
  pub value_unit : Option String
  pub page : ℕ
  pub snippet : String
  pub extraction_confidence : ℕ
  pub unverifiable : Bool

pub data UnitType : Type 0 where
  currency count percent : UnitType

-- One entry of `PATTERNS`; the predicate names the regular expression.
pub record Pattern : Type 0 where
  pub category : ClaimCategory
  pub predicate : String
  pub unit_type : UnitType

abbrev pattern_of : ClaimCategory → String → UnitType → Pattern
pattern_of category predicate unit = record {
  category = category;
  predicate = predicate;
  unit_type = unit;
}

unfoldable pub patterns : List Pattern
patterns =
    pattern_of ClaimCategory.revenue "arr" UnitType.currency
    ∷ pattern_of ClaimCategory.traction "customer_count" UnitType.count
    ∷ pattern_of ClaimCategory.market "tam" UnitType.currency
    ∷ pattern_of ClaimCategory.traction "growth_rate_pct" UnitType.percent
    ∷ []

-- A match: the whole of it, and its first group.
pub record Match : Type 0 where
  pub whole : String
  pub group : String

pub record TextTools : Type 0 where
  pub casefold : String → String
  pub search : String → String → Option Match
  pub decimal : String → Option ℕ

-- `$`, `€`, `£` and the comma
abbrev is_mark : ℕ → Bool
is_mark c = c == 36 || (c == 8364 || (c == 163 || c == 44))

abbrev drop_marks : String → String
drop_marks String.[] = ""
drop_marks (String.◌∷◌ c s) =
    let rest = drop_marks s in if is_mark (code c) then rest else String.◌∷◌ c rest

-- The text without its last character, and that character.
abbrev unsnoc : String → String × String
unsnoc String.[] = ("", "")
unsnoc (String.◌∷◌ c s) =
    let (front, last) = unsnoc s in
    if str_eq last "" then ("", String.◌∷◌ c "") else (String.◌∷◌ c front, last)

-- The unit of a currency by its sign.
abbrev currency_of : String → String
currency_of raw = if contains "€" raw then "EUR" else if contains "£" raw then "GBP" else "USD"

abbrev unit_of : UnitType → String → String
unit_of UnitType.currency raw = currency_of raw
unit_of UnitType.count raw = "count"
unit_of UnitType.percent raw = "percent"

module _ (tools : TextTools) where
  unfoldable pub looks_like_prompt_injection : String → Bool
  looks_like_prompt_injection text =
      any_where (λ p. contains p (tools.casefold text))
        ("ignore previous" ∷ "ignore all prior" ∷ "system prompt" ∷ "you are now"
          ∷ "override your instructions" ∷ [])

  abbrev scaled : ℕ → String → Option ℕ
  scaled factor s = elim (tools.decimal s) [ none ↦ none | some n ↦ some (n * factor) ]

  abbrev with_suffix : String → String × String → Option ℕ
  with_suffix cleaned (front, last) =
      if str_eq (tools.casefold last) "k"
      then scaled 1000 front
      else if str_eq (tools.casefold last) "m"
      then scaled 1000000 front
      else if str_eq (tools.casefold last) "b"
      then scaled 1000000000 front
      else scaled 1 cleaned

  -- `_parse_compact_number`
  unfoldable pub parse_compact_number : String → Option ℕ
  unfolding strip
  parse_compact_number value =
      let cleaned = strip (drop_marks value) in with_suffix cleaned (unsnoc cleaned)

  abbrev claim_of : ℕ → String → Pattern → Match → ExtractedClaim
  claim_of page line p found =
      let injected = looks_like_prompt_injection line in
      record {
        category = p.category;
        predicate = p.predicate;
        text = first_chars 500 line;
        value_num = parse_compact_number found.group;
        value_unit = some (unit_of p.unit_type found.group);
        page = page;
        snippet = found.whole;
        extraction_confidence = if injected then 300 else 820;
        unverifiable = injected;
      }

  -- A match adds a claim, if the snippet occurs in the line.
  abbrev pub quoted_claim : ℕ → String → Pattern → Option Match → List ExtractedClaim
  quoted_claim page line p none = []
  quoted_claim page line p (some found) =
      if contains found.whole line then claim_of page line p found ∷ [] else []

  abbrev pub match_claims : ℕ → String → Pattern → List ExtractedClaim
  match_claims page line p = quoted_claim page line p (tools.search p.predicate line)

  unfoldable pub line_claims : ℕ → String → List Pattern → List ExtractedClaim
  line_claims page line [] = []
  line_claims page line (p ∷ ps) = match_claims page line p ++ line_claims page line ps

  -- The lines of a page, stripped, less the empty ones.
  abbrev kept_lines : List String → List String
  kept_lines [] = []
  kept_lines (line ∷ rest) =
      let kept = kept_lines rest in if str_eq (strip line) "" then kept else strip line ∷ kept

  abbrev pub page_lines : ParsedPage → List String
  page_lines page = kept_lines (split_lines page.text)

  unfoldable pub lines_claims : ℕ → List String → List ExtractedClaim
  unfolding patterns
  lines_claims page [] = []
  lines_claims page (line ∷ rest) = line_claims page line patterns ++ lines_claims page rest

  unfoldable pub extract_claims : List ParsedPage → List ExtractedClaim
  extract_claims [] = []
  extract_claims (page ∷ rest) = lines_claims page.page_no (page_lines page) ++ extract_claims rest

-- The first line of at least twelve characters, as a claim on the product.
abbrev first_long : ℕ → List String → Option ExtractedClaim
first_long page [] = none
first_long page (line ∷ rest) =
    let later = first_long page rest in
    if leb 12 (char_count (strip line))
    then some (record {
      category = ClaimCategory.product;
      predicate = "deck_summary";
      text = first_chars 500 (strip line);
      value_num = none;
      value_unit = none;
      page = page;
      snippet = first_chars 400 (strip line);
      extraction_confidence = 720;
      unverifiable = false;
    })
    else later

abbrev or_later : Option ExtractedClaim → Option ExtractedClaim → Option ExtractedClaim
or_later none later = later
or_later (some c) later = some c

-- `_product_claim`
unfoldable pub product_claim : List ParsedPage → Option ExtractedClaim
product_claim [] = none
product_claim (page ∷ rest) =
    or_later (first_long page.page_no (split_lines page.text)) (product_claim rest)
