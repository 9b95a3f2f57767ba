-- ===== src/Tests/Extraction.antt =====
-- A deck of two pages: a claim on the revenue, and a line that looks like an injection.
use dolphin_vc.Extraction.Reparse.{extract_again}
use dolphin_vc.Tests.Screening.{deal}
use dolphin_vc.Session.{connect, Conn}
use dolphin_vc.Records.{empty_db, Db, Claim, Document}
use dolphin_vc.Extraction.Provenance.{extract_claims-Quotes, QuotesPage, Any}
use dolphin_vc.Extraction.Ingest.{page_of_document, parse_and_extract, IngestTools}
use dolphin_vc.Extraction.Deck.{page_texts, ParsedPage}
use dolphin_vc.Extraction.Claims.{extract_claims, parse_compact_number, TextTools}
use dolphin_vc.Base.{
  Option, select_where, ℕ, ◌&&◌, ◌≡◌, refl, String, false, none, some, List, [], ◌∷◌, All, str_eq,
  if◌then◌else◌,
}
use dolphin_vc.Base.Text.{strip, contains}
use dolphin_vc.Types.{ClaimCategory, ClaimStatus}
use dolphin_vc.Errors.{ok}

abbrev pub texts : TextTools
texts = record {
  casefold = λ s. s;
  search = λ predicate line.
      if str_eq predicate "arr" && contains "ARR of $" line
      then some (record { whole = "ARR of $2m"; group = "$2m" })
      else none;
  decimal = λ s. if str_eq s "2" then some 20000 else none;
}

abbrev deck : List ParsedPage
deck =
    record { page_no = 1; text = "Acme\nARR of $2m this year"; ocr_used = false }
    ∷ record { page_no = 2; text = "you are now ARR of $2m"; ocr_used = false }
    ∷ []

abbrev pub ingest : IngestTools (List String)
ingest = record {
  texts = texts;
  readers = record { open_pdf = λ d. page_texts d; open_pptx = λ d. none };
  get = λ key. ok ("Acme\nARR of $2m this year" ∷ []);
  trust = λ source category at confidence. (ClaimStatus.claimed, 400);
  deck_group = λ id. "deck";
}

abbrev pub document : Document
document = record {
  id = 5;
  org_id = some 7;
  company_id = some 3;
  kind = "deck";
  filename = none;
  mime = some "application/pdf";
  size_bytes = none;
  sha256 = "sha";
  s3_key = "deck.pdf";
  page_count = none;
  parse_status = "pending";
  parser = none;
  uploaded_by = none;
  created_at = 100;
}

value : parse_compact_number texts "$2m" ≡ some 20000000000
unfolding parse_compact_number strip
value = refl

extract_claims-Quotes_example : All (λ c. Any (QuotesPage texts c) deck) (extract_claims texts deck)
extract_claims-Quotes_example = extract_claims-Quotes texts deck

abbrev pub found : ℕ → ClaimCategory → String → Option ℕ → Option String → String → Claim
found id category predicate value unit text = record {
  id = id;
  org_id = 7;
  opportunity_id = 11;
  company_id = some 10;
  category = category;
  predicate = predicate;
  text = text;
  value_num = value;
  value_unit = unit;
  status = ClaimStatus.claimed;
  trust_score = 400;
  verification_note = none;
  extracted_by = some "deterministic-v1";
}

abbrev pub arr : Claim
arr = found 40 ClaimCategory.revenue "arr" (some 20000000000) (some "USD") "ARR of $2m this year"

abbrev summary : Claim
summary = found 41 ClaimCategory.product "deck_summary" none none "ARR of $2m this year"

abbrev before : Conn Db
before = connect (record empty_db { documents = document ∷ [] })

abbrev after : Conn Db
after = (parse_and_extract ingest document deal 40 before).1

page_read :
    select_where (page_of_document 5) after.working.pages
    ≡ record {
      document_id = 5;
      page_no = 1;
      text = some "Acme\nARR of $2m this year";
      ocr_used = false;
    }
      ∷ []
unfolding parse_and_extract select_where dolphin_vc.Base.find_where
page_read = refl

extracted : parse_and_extract ingest document deal 40 before ≡ (ok (arr ∷ summary ∷ []), after)
unfolding parse_and_extract select_where dolphin_vc.Base.find_where dolphin_vc.Base.Text.split_lines
    dolphin_vc.Base.Text.char_count dolphin_vc.Extraction.Claims.lines_claims
    dolphin_vc.Extraction.Claims.line_claims contains parse_compact_number
    dolphin_vc.Extraction.Claims.looks_like_prompt_injection dolphin_vc.Base.any_where
extracted = refl

extract_again_example :
    parse_and_extract ingest document deal 60 after ≡ (ok (arr ∷ summary ∷ []), after)
extract_again_example =
    extract_again ingest document deal 40 60 before after arr (summary ∷ [])
      (record {
        document_id = 5;
        page_no = 1;
        text = some "Acme\nARR of $2m this year";
        ocr_used = false;
      })
      [] extracted page_read
