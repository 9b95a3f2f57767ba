-- ===== src/Extraction/Provenance.antt =====
-- Where the claims of a deck come from (`extract_claims` of backend/app/services/extraction.py).
use dolphin_vc.Base.{
  false, if◌then◌else◌, Bool, Option, none, some, ℕ, ◌≡◌, refl, ◌⊎◌, inl, inr, String, true, List,
  [], ◌∷◌, ◌++◌, All,
}
use dolphin_vc.Base.Text.{contains, first_chars}
use dolphin_vc.Extraction.Deck.{ParsedPage}
use dolphin_vc.Extraction.Claims.{
  Match, ExtractedClaim, Pattern, TextTools, patterns, quoted_claim, match_claims, line_claims,
  page_lines, lines_claims, extract_claims, looks_like_prompt_injection,
}

-- Some element of the list satisfies the predicate.
abbrev pub Any : {A : Type 0} → (A → Type 0) → List A → Type 0
Any P [] = ⊥
Any P (x ∷ xs) = P x ⊎ Any P xs

All-++ : {A : Type 0} (P : A → Type 0) (l r : List A) → All P l → All P r → All P (l ++ r)
All-++ P [] r hl hr = hr
All-++ P (x ∷ l) r hl hr = (hl.0, All-++ P l r hl.1 hr)

All-weaken :
    {A : Type 0} (P Q : A → Type 0) (l : List A) → ((x : A) → P x → Q x) → All P l → All Q l
All-weaken P Q [] weaken h = tt
All-weaken P Q (x ∷ l) weaken h = (weaken x h.0, All-weaken P Q l weaken h.1)

All-if :
    {A : Type 0} (P : A → Type 0) (b : Bool) (x : A)
    → (b ≡ true → P x)
    → All P (if b then x ∷ [] else [])
All-if P true x h = (h refl, tt)
All-if P false x h = tt

module _ (tools : TextTools) where
  -- The claim quotes the line: it stands on the line's page, its snippet occurs in the line, its
  -- text is the line's beginning, and it is marked where the line looks like an injection.
  abbrev Quotes : ℕ → ExtractedClaim → String → Type 0
  Quotes number c line =
      (c.page ≡ number)
      × (contains c.snippet line ≡ true)
      × (c.text ≡ first_chars 500 line)
      × (c.unverifiable ≡ looks_like_prompt_injection tools line)

  abbrev pub QuotesPage : ExtractedClaim → ParsedPage → Type 0
  QuotesPage c page = Any (Quotes page.page_no c) (page_lines tools page)

  quoted_claim-Quotes :
      (number : ℕ) (line : String) (p : Pattern) (found : Option Match)
      → All (λ c. Quotes number c line) (quoted_claim tools number line p found)
  quoted_claim-Quotes number line p none = tt
  quoted_claim-Quotes number line p (some found) =
      All-if (λ c. Quotes number c line) (contains found.whole line) _
        (λ inside. (refl, inside, refl, refl))

  line_claims-Quotes :
      (number : ℕ) (line : String) (ps : List Pattern)
      → All (λ c. Quotes number c line) (line_claims tools number line ps)
  unfolding line_claims
  line_claims-Quotes number line [] = tt
  line_claims-Quotes number line (p ∷ ps) =
      All-++ (λ c. Quotes number c line) (match_claims tools number line p)
        (line_claims tools number line ps)
        (quoted_claim-Quotes number line p (tools.search p.predicate line))
        (line_claims-Quotes number line ps)

  lines_claims-Quotes :
      (number : ℕ) (lines : List String)
      → All (λ c. Any (Quotes number c) lines) (lines_claims tools number lines)
  unfolding lines_claims
  lines_claims-Quotes number [] = tt
  lines_claims-Quotes number (line ∷ rest) =
      All-++ (λ c. Any (Quotes number c) (line ∷ rest)) (line_claims tools number line patterns)
        (lines_claims tools number rest)
        (All-weaken (λ c. Quotes number c line) (λ c. Any (Quotes number c) (line ∷ rest))
          (line_claims tools number line patterns) (λ c h. inl h)
          (line_claims-Quotes number line patterns))
        (All-weaken (λ c. Any (Quotes number c) rest) (λ c. Any (Quotes number c) (line ∷ rest))
          (lines_claims tools number rest) (λ c h. inr h) (lines_claims-Quotes number rest))

-- Every claim that is extracted quotes a line of a page: some page bears its number and has, among
-- its stripped lines, one that the claim's snippet occurs in and whose first 500 characters are the
-- claim's text; and the claim is marked unverifiable exactly where that line looks like a prompt
-- injection. So no claim is made up, whatever the patterns match.
pub extract_claims-Quotes :
    (tools : TextTools) (pages : List ParsedPage)
    → All (λ c. Any (QuotesPage tools c) pages) (extract_claims tools pages)
unfolding extract_claims
extract_claims-Quotes tools [] = tt
extract_claims-Quotes tools (page ∷ rest) =
    All-++ (λ c. Any (QuotesPage tools c) (page ∷ rest))
      (lines_claims tools page.page_no (page_lines tools page)) (extract_claims tools rest)
      (All-weaken (λ c. QuotesPage tools c page) (λ c. Any (QuotesPage tools c) (page ∷ rest))
        (lines_claims tools page.page_no (page_lines tools page)) (λ c h. inl h)
        (lines_claims-Quotes tools page.page_no (page_lines tools page)))
      (All-weaken (λ c. Any (QuotesPage tools c) rest) (λ c. Any (QuotesPage tools c) (page ∷ rest))
        (extract_claims tools rest) (λ c h. inr h) (extract_claims-Quotes tools rest))
