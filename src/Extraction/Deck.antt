-- ===== src/Extraction/Deck.antt =====
-- backend/app/services/parse/deck.py. What pypdf and python-pptx make of a file are parameters.
use dolphin_vc.Base.{
  ℕ, ◌+◌, String, Bool, false, Option, none, some, List, [], ◌∷◌, if◌then◌else◌, str_eq, any_where,
  map,
}
use dolphin_vc.Base.Text.{strip, join}
use dolphin_vc.Errors.{AppError, ErrorCode, Result, ok, err, app_error}

pub record ParsedPage : Type 0 where
  pub page_no : ℕ
  pub text : String
  pub ocr_used : Bool

pub record ParsedDeck : Type 0 where
  pub pages : List ParsedPage
  pub parser : String
  pub partial : Bool

-- What `PdfReader` ends in: an encrypted document, an error, or the texts of the pages, empty where
-- there is none.
pub data PdfContent : Type 0 where
  encrypted : PdfContent
  unreadable : PdfContent
  page_texts : List String → PdfContent

-- The readers of the two formats, for files of type `D`: `open_pptx` gives the texts of the shapes
-- of each slide, or nothing where it raises.
pub record Readers (D : Type 0) : Type 0 where
  pub open_pdf : D → PdfContent
  pub open_pptx : D → Option (List (List String))

abbrev page_of : ℕ → String → ParsedPage
page_of number text = record { page_no = number; text = text; ocr_used = false }

-- `enumerate(items, number)`
abbrev number_pages : ℕ → List String → List ParsedPage
number_pages number [] = []
number_pages number (text ∷ texts) = page_of number text ∷ number_pages (number + 1) texts

abbrev is_empty : String → Bool
is_empty s = str_eq s ""

-- `partial` is set where some page has no text.
unfoldable deck_of : String → List String → ParsedDeck
deck_of parser texts = record {
  pages = number_pages 1 texts;
  parser = parser;
  partial = any_where is_empty texts;
}

abbrev unparseable : String → AppError
unparseable message = app_error ErrorCode.deck_unparseable message 422

-- The lines of a slide: the shapes that have text.
abbrev slide_lines : List String → List String
slide_lines [] = []
slide_lines (s ∷ shapes) =
    let rest = slide_lines shapes in if is_empty (strip s) then rest else strip s ∷ rest

module _ {D : Type 0} (readers : Readers D) where
  unfoldable parse_pdf : D → Result ParsedDeck
  unfolding deck_of strip
  parse_pdf data' = elim (readers.open_pdf data') [
    | encrypted ↦
        err (app_error ErrorCode.document_encrypted "Encrypted PDFs are not supported." 415)
    | unreadable ↦ err (unparseable "The PDF could not be parsed.")
    | page_texts texts ↦ ok (deck_of "pypdf" (map strip texts))
  ]

  unfoldable parse_pptx : D → Result ParsedDeck
  unfolding deck_of strip join
  parse_pptx data' = elim (readers.open_pptx data') [
    | none ↦ err (unparseable "The PPTX could not be parsed.")
    | some slides ↦
        ok (deck_of "python-pptx" (map (λ shapes. join "\n" (slide_lines shapes)) slides))
  ]

  unfoldable pub parse_deck : D → String → Result ParsedDeck
  unfolding parse_pdf parse_pptx
  parse_deck data' mime =
      if str_eq mime "application/pdf"
      then parse_pdf data'
      else if str_eq mime
          "application/vnd.openxmlformats-officedocument.presentationml.presentation"
      then parse_pptx data'
      else err (
          app_error ErrorCode.unsupported_media_type "Only PDF and PPTX documents are accepted."
            415)
