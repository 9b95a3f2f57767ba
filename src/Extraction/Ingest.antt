-- ===== src/Extraction/Ingest.antt =====
-- `_ensure_deck_source` and `_parse_and_extract` of backend/app/services/pipeline.py: the pages and
-- the claims of a deck. The object store and the trust in a claim are parameters.
use dolphin_vc.Base.{
  ℕ, ◌+◌, String, Bool, not, Option, none, some, List, [], ◌∷◌, ◌++◌, ◌==◌, if◌then◌else◌, str_eq,
  map, find_where, select_where, update_where, length,
}
use dolphin_vc.Base.Text.{first_chars}
use dolphin_vc.Types.{SourceTier, SourceStatus, ClaimStatus, ClaimCategory}
use dolphin_vc.Errors.{Result, ok, err}
use dolphin_vc.Session.{Tx, pure, query, modify, raise, ◌>>=◌, ◌>>◌}
use dolphin_vc.Records.{
  Db, Document, DocumentPage, Opportunity, Claim, Evidence, Source, set_sources, set_claims,
  set_evidence,
}
use dolphin_vc.Extraction.Deck.{ParsedPage, ParsedDeck, Readers, parse_deck}
use dolphin_vc.Extraction.Claims.{ExtractedClaim, TextTools, extract_claims, product_claim}

-- What the claims of a deck stand on: the bytes behind a key, the trust in a claim and the texts.
-- `trust` takes the source, the category, the instant and the confidence of the extraction.
pub record IngestTools (D : Type 0) : Type 0 where
  pub texts : TextTools
  pub readers : Readers D
  pub get : String → Result D
  pub trust : Source → ClaimCategory → ℕ → ℕ → ClaimStatus × ℕ
  pub deck_group : ℕ → String

abbrev pub deck_source : ℕ → Source
deck_source id = record {
  id = id;
  key = "deck";
  display_name = "Founder-submitted deck";
  tier = SourceTier.self_reported;
  status = SourceStatus.active;
  reliability = 400;
  last_ok_at = none;
  last_error_at = none;
  last_error = none;
}

unfoldable pub deck_source_or : Option Source → ℕ → Tx Db Source
deck_source_or (some s) id = pure s
deck_source_or none id = do
  modify (set_sources (λ ss. ss ++ deck_source id ∷ []))
  pure (deck_source id)

unfoldable pub ensure_deck_source : ℕ → Tx Db Source
unfolding deck_source_or
ensure_deck_source id = do
  found ← query (λ db. find_where (λ (s : Source). str_eq s.key "deck") db.sources)
  deck_source_or found id

abbrev pub text_of : Option String → String
text_of none = ""
text_of (some s) = s

abbrev page_row : ℕ → ParsedPage → DocumentPage
page_row document page = record {
  document_id = document;
  page_no = page.page_no;
  text = some page.text;
  ocr_used = page.ocr_used;
}

abbrev pub stored_page : DocumentPage → ParsedPage
stored_page row = record { page_no = row.page_no; text = text_of row.text; ocr_used = row.ocr_used }

abbrev pub page_of_document : ℕ → DocumentPage → Bool
page_of_document document row = row.document_id == document

abbrev parsed_row : ParsedDeck → Document → Document
parsed_row deck d = record d {
  page_count = some (length deck.pages);
  parser = some deck.parser;
  parse_status = if deck.partial then "partial" else "ok";
}

abbrev store_deck : ℕ → ParsedDeck → Db → Db
store_deck document deck db = record db {
  pages = db.pages ++ map (page_row document) deck.pages;
  documents = update_where (λ (d : Document). d.id == document) (parsed_row deck) db.documents;
}

abbrev pub claim_of_opportunity : ℕ → Claim → Bool
claim_of_opportunity opportunity c = c.opportunity_id == opportunity

abbrev push_product : Option ExtractedClaim → List ExtractedClaim → List ExtractedClaim
push_product none extracted = extracted
push_product (some c) extracted = extracted ++ c ∷ []

module _ {D : Type 0} (tools : IngestTools D) where
  unfoldable pub store_parsed : Document → Result ParsedDeck → Tx Db (List ParsedPage)
  store_parsed d (err e) = raise e
  store_parsed d (ok deck) = do modify (store_deck d.id deck); pure deck.pages

  unfoldable pub parse_stored : Document → Result D → Tx Db (List ParsedPage)
  unfolding store_parsed parse_deck
  parse_stored d (err e) = raise e
  parse_stored d (ok bytes) = store_parsed d (parse_deck tools.readers bytes (text_of d.mime))

  unfoldable pub pages_or_parse : Document → List DocumentPage → Tx Db (List ParsedPage)
  unfolding parse_stored
  pages_or_parse d [] = parse_stored d (tools.get d.s3_key)
  pages_or_parse d (row ∷ rows) = pure (map stored_page (row ∷ rows))

  -- The pages of a document, parsed where there are none.
  unfoldable pub load_pages : Document → Tx Db (List ParsedPage)
  unfolding pages_or_parse
  load_pages d = do
    rows ← query (λ db. select_where (page_of_document d.id) db.pages)
    pages_or_parse d rows

  abbrev claim_status_of : ExtractedClaim → ClaimStatus → ClaimStatus
  claim_status_of item trusted = if item.unverifiable then ClaimStatus.unverifiable else trusted

  abbrev claim_row : Document → Opportunity → Source → ℕ → ExtractedClaim → Claim
  claim_row d o source id item =
      let trusted = tools.trust source item.category d.created_at item.extraction_confidence in
      record {
        id = id;
        org_id = o.org_id;
        opportunity_id = o.id;
        company_id = some o.company_id;
        category = item.category;
        predicate = item.predicate;
        text = item.text;
        value_num = item.value_num;
        value_unit = item.value_unit;
        status = claim_status_of item trusted.0;
        trust_score = trusted.1;
        verification_note =
            if item.unverifiable then some "Prompt-injection-like text detected." else none;
        extracted_by = some "deterministic-v1";
      }

  abbrev evidence_row : Document → Source → ℕ → ExtractedClaim → Evidence
  evidence_row d source id item = record {
    id = id;
    claim_id = id;
    document_id = some d.id;
    source_id = source.id;
    page = some item.page;
    snippet = first_chars 400 item.snippet;
    supports = not item.unverifiable;
    independence_group = some (tools.deck_group d.id);
    observed_at = some d.created_at;
  }

  -- The rows of the loop over the extracted claims, which draw their ids in order.
  unfoldable pub claim_rows : Document → Opportunity → Source → ℕ → List ExtractedClaim → List Claim
  claim_rows d o source id [] = []
  claim_rows d o source id (item ∷ items) =
      claim_row d o source id item ∷ claim_rows d o source (id + 1) items

  unfoldable evidence_rows : Document → Source → ℕ → List ExtractedClaim → List Evidence
  unfolding first_chars
  evidence_rows d source id [] = []
  evidence_rows d source id (item ∷ items) =
      evidence_row d source id item ∷ evidence_rows d source (id + 1) items

  -- The claims that the pages make, the one on the product last.
  unfoldable pub deck_claims : List ParsedPage → List ExtractedClaim
  unfolding extract_claims product_claim
  deck_claims pages = push_product (product_claim pages) (extract_claims tools.texts pages)

  -- The claims of the pages, with the rows of the source.
  unfoldable pub add_claims :
      Document → Opportunity → ℕ → List ParsedPage → Source → Tx Db (List Claim)
  unfolding claim_rows evidence_rows deck_claims
  add_claims d o id pages source = do
    let items = deck_claims pages
    modify (set_claims (λ cs. cs ++ claim_rows d o source id items))
    modify (set_evidence (λ es. es ++ evidence_rows d source id items))
    pure (claim_rows d o source id items)

  unfoldable pub claims_or_extract :
      Document → Opportunity → ℕ → List ParsedPage → List Claim → Tx Db (List Claim)
  unfolding ensure_deck_source add_claims
  claims_or_extract d o id pages (c ∷ existing) = pure (c ∷ existing)
  claims_or_extract d o id pages [] = do
    source ← ensure_deck_source id
    add_claims d o id pages source

  -- The claims of an opportunity, extracted from the pages where there are none.
  unfoldable pub claims_of_pages : Document → Opportunity → ℕ → List ParsedPage → Tx Db (List Claim)
  unfolding claims_or_extract
  claims_of_pages d o id pages = do
    existing ← query (λ db. select_where (claim_of_opportunity o.id) db.claims)
    claims_or_extract d o id pages existing

  -- `_parse_and_extract`; the rows that it makes draw their ids from `id` on.
  unfoldable pub parse_and_extract : Document → Opportunity → ℕ → Tx Db (List Claim)
  unfolding load_pages claims_of_pages
  parse_and_extract d o id = do pages ← load_pages d; claims_of_pages d o id pages
