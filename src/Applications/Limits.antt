-- ===== src/Applications/Limits.antt =====
-- The limit of an upload (`read_limited_upload` of backend/app/services/object_store.py).
use dolphin_vc.Applications.Upload.{upload_exceeded, read_limited_upload, read_chunks}
use dolphin_vc.Base.{
  ℕ, ◌+◌, ◌*◌, ◌≤◌, ◌≡◌, ◌∙◌, refl, ap, inl, inr, arith, String, List, [], ◌∷◌, ◌++◌, leb,
  if◌then◌else◌, length, Bool-cases, ltb,
}
use dolphin_vc.Errors.{AppError, ok, err}

-- The bytes of the chunks up to an empty one.
abbrev pub payload : List (List ℕ) → List ℕ
payload [] = []
payload ([] ∷ chunks) = []
payload ((b ∷ chunk) ∷ chunks) = (b ∷ chunk) ++ payload chunks

append_assoc : (xs ys zs : List ℕ) → (xs ++ ys) ++ zs ≡ xs ++ (ys ++ zs)
append_assoc [] ys zs = refl
append_assoc (x ∷ xs) ys zs = ap (λ l. x ∷ l) (append_assoc xs ys zs)

append_nil : (xs : List ℕ) → xs ++ [] ≡ xs
append_nil [] = refl
append_nil (x ∷ xs) = ap (λ l. x ∷ l) (append_nil xs)

length_append : (xs ys : List ℕ) → length (xs ++ ys) ≡ length xs + length ys
length_append [] ys = omega arith
length_append (x ∷ xs) ys = let rest = length_append xs ys in omega arith

read_chunks_lem :
    (e : AppError) (maximum total : ℕ) (read : List ℕ) (chunks : List (List ℕ))
    → total ≤ maximum
    → read_chunks e maximum total read chunks ≡ (
        if leb (total + length (payload chunks)) maximum
        then ok (read ++ payload chunks)
        else err e)
unfolding read_chunks
read_chunks_lem e maximum total read [] h = rw append_nil (ground arith)
read_chunks_lem e maximum total read ([] ∷ chunks) h = rw append_nil (ground arith)
read_chunks_lem e maximum total read ((b ∷ chunk) ∷ chunks) h =
    let more = length_append (b ∷ chunk) (payload chunks) in
    elim (Bool-cases (ltb maximum (total + length (b ∷ chunk)))) [
      | inl large ↦ rw large (ground (arith, more))
      | inr small ↦ rw small (
          read_chunks_lem e maximum (total + length (b ∷ chunk)) (read ++ (b ∷ chunk)) chunks
            (ground arith)
          ∙ rw (append_assoc read (b ∷ chunk) (payload chunks)) (ground (arith, more)))
    ]

-- An upload gives the bytes of all its chunks, up to an empty one, if they are not more than the
-- limit, and is refused otherwise; that the loop stops at the chunk that exceeds the limit makes no
-- difference.
pub read_limited_upload_lem :
    (show : ℕ → String) (max_mb : ℕ) (chunks : List (List ℕ))
    → read_limited_upload show max_mb chunks ≡ (
        if leb (length (payload chunks)) (max_mb * 1024 * 1024)
        then ok (payload chunks)
        else err (upload_exceeded show max_mb))
unfolding read_limited_upload
read_limited_upload_lem show max_mb chunks = ground (
  arith,
  read_chunks_lem (upload_exceeded show max_mb) (max_mb * 1024 * 1024) 0 [] chunks (omega arith),
)
