-- ===== src/Applications/Upload.antt =====
-- `read_limited_upload` and `sniff_document_mime` of backend/app/services/object_store.py. A file is
-- the list of its bytes.
use dolphin_vc.Base.{
  ℕ, ◌+◌, ◌*◌, String, Bool, true, false, ◌&&◌, List, [], ◌∷◌, ◌++◌, ltb, ◌==◌, if◌then◌else◌,
  length,
}
use Prim.Native.String.{◌++◌ as append}
use dolphin_vc.Errors.{AppError, ErrorCode, Result, ok, err, app_error}

unfoldable pub starts_with : List ℕ → List ℕ → Bool
starts_with [] bytes = true
starts_with (m ∷ magic) [] = false
starts_with (m ∷ magic) (b ∷ bytes) = (m == b) && starts_with magic bytes

-- `%PDF-` and `PK\x03\x04`
abbrev pdf_magic : List ℕ
pdf_magic = 37 ∷ 80 ∷ 68 ∷ 70 ∷ 45 ∷ []

abbrev zip_magic : List ℕ
zip_magic = 80 ∷ 75 ∷ 3 ∷ 4 ∷ []

abbrev pptx_mime : String
pptx_mime = "application/vnd.openxmlformats-officedocument.presentationml.presentation"

abbrev unsupported_document : AppError
unsupported_document =
    app_error ErrorCode.unsupported_media_type "Only PDF and PPTX documents are accepted." 415

unfoldable pub sniff_document_mime : List ℕ → Result String
unfolding starts_with
sniff_document_mime bytes =
    if starts_with pdf_magic bytes
    then ok "application/pdf"
    else if starts_with zip_magic bytes
    then ok pptx_mime
    else err unsupported_document

-- The error of a file that is too large; `show` gives the text of a number.
abbrev pub upload_exceeded : (ℕ → String) → ℕ → AppError
upload_exceeded show max_mb =
    app_error ErrorCode.max_body_exceeded
      (append "Upload exceeds the " (append (show max_mb) " MB limit.")) 413

-- The loop over the chunks that `upload.read` gives, of which an empty one is the end; `total` and
-- `read` are what has come so far.
unfoldable pub read_chunks : AppError → ℕ → ℕ → List ℕ → List (List ℕ) → Result (List ℕ)
read_chunks exceeded maximum total read [] = ok read
read_chunks exceeded maximum total read ([] ∷ chunks) = ok read
read_chunks exceeded maximum total read ((b ∷ chunk) ∷ chunks) =
    let rest =
      read_chunks exceeded maximum (total + length (b ∷ chunk)) (read ++ (b ∷ chunk)) chunks in
    if ltb maximum (total + length (b ∷ chunk)) then err exceeded else rest

-- `read_limited_upload`
unfoldable pub read_limited_upload : (ℕ → String) → ℕ → List (List ℕ) → Result (List ℕ)
unfolding read_chunks
read_limited_upload show max_mb chunks =
    read_chunks (upload_exceeded show max_mb) (max_mb * 1024 * 1024) 0 [] chunks
