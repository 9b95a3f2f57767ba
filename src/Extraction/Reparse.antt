-- ===== src/Extraction/Reparse.antt =====
-- Screening a deck again (`_parse_and_extract` of backend/app/services/pipeline.py).
use dolphin_vc.Base.{
  sym, none, some, map, Option, ◌+◌, ℕ, ◌≡◌, refl, ◌∙◌, ◌⊎◌, inl, inr, Bool, List, [], ◌∷◌, ◌++◌,
  arith, ==_refl, select_where,
}
use dolphin_vc.Errors.{ok}
use dolphin_vc.Session.{bind_run, bind_returned, Conn, Tx, ◌>>=◌}
use dolphin_vc.Records.{DocumentPage, Db, Document, Opportunity, Claim, Source}
use dolphin_vc.Extraction.Deck.{ParsedPage}
use dolphin_vc.Extraction.Claims.{ExtractedClaim}
use dolphin_vc.Extraction.Ingest.{
  stored_page, pages_or_parse, page_of_document, add_claims, parse_and_extract, load_pages,
  deck_source_or, IngestTools, claim_of_opportunity, claim_rows, claims_of_pages,
  ensure_deck_source, deck_source, claims_or_extract, deck_claims,
}

List-cases : {A : Type 0} (l : List A) → (l ≡ []) ⊎ ((x : A) × (xs : List A) × (l ≡ x ∷ xs))
List-cases [] = inl refl
List-cases (x ∷ xs) = inr (x, xs, refl)

select_where-append :
    {A : Type 0} (p : A → Bool) (l r : List A)
    → select_where p (l ++ r) ≡ select_where p l ++ select_where p r
unfolding select_where
select_where-append p [] r = refl
select_where-append p (x ∷ l) r = ground (arith, select_where-append p l r)

module _ {D : Type 0} (tools : IngestTools D) (d : Document) (o : Opportunity) where
  select_where-claim_rows :
      (source : Source) (id : ℕ) (items : List ExtractedClaim)
      → select_where (claim_of_opportunity o.id) (claim_rows tools d o source id items)
        ≡ claim_rows tools d o source id items
  unfolding select_where claim_rows
  select_where-claim_rows source id [] = refl
  select_where-claim_rows source id (item ∷ items) =
      ground (arith, ==_refl o.id, select_where-claim_rows source (id + 1) items)

  -- What `m` returns are the claims of the opportunity from then on.
  abbrev Returns : Tx Db (List Claim) → Conn Db → Type 0
  Returns m c =
      (cs : List Claim) × (c' : Conn Db) × (m c ≡ (ok cs, c'))
      × (select_where (claim_of_opportunity o.id) c'.working.claims ≡ cs)

  added-Returns :
      (id : ℕ) (pages : List ParsedPage) (found : Option Source) (c : Conn Db)
      → select_where (claim_of_opportunity o.id) c.working.claims ≡ []
      → Returns (deck_source_or found id >>= add_claims tools d o id pages) c
  unfolding deck_source_or add_claims
  added-Returns id pages (some s) c h = (
    claim_rows tools d o s id (deck_claims tools pages),
    _,
    refl,
    rw
        (
          select_where-append (claim_of_opportunity o.id) c.working.claims
              (claim_rows tools d o s id (deck_claims tools pages)),
          h,
        )
        (select_where-claim_rows s id (deck_claims tools pages)),
  )
  added-Returns id pages none c h = (
    claim_rows tools d o (deck_source id) id (deck_claims tools pages),
    _,
    refl,
    rw
        (
          select_where-append (claim_of_opportunity o.id) c.working.claims
              (claim_rows tools d o (deck_source id) id (deck_claims tools pages)),
          h,
        )
        (select_where-claim_rows (deck_source id) id (deck_claims tools pages)),
  )

  claims_or_extract-Returns :
      (id : ℕ) (pages : List ParsedPage) (existing : List Claim) (c : Conn Db)
      → select_where (claim_of_opportunity o.id) c.working.claims ≡ existing
      → Returns (claims_or_extract tools d o id pages existing) c
  unfolding claims_or_extract ensure_deck_source
  claims_or_extract-Returns id pages (x ∷ existing) c h = (x ∷ existing, c, refl, h)
  claims_or_extract-Returns id pages [] c h = added-Returns id pages _ c h

  claims_of_pages-Returns :
      (id : ℕ) (pages : List ParsedPage) (c : Conn Db)
      → Returns (claims_of_pages tools d o id pages) c
  unfolding claims_of_pages
  claims_of_pages-Returns id pages c = claims_or_extract-Returns id pages _ c refl

  -- With a claim there, the pages make no other.
  claims_stay :
      (id : ℕ) (pages : List ParsedPage) (x : Claim) (xs : List Claim) (c : Conn Db)
      → select_where (claim_of_opportunity o.id) c.working.claims ≡ x ∷ xs
      → claims_of_pages tools d o id pages c ≡ (ok (x ∷ xs), c)
  unfolding claims_of_pages claims_or_extract
  claims_stay id pages x xs c h = rw h refl

  -- With a page there, a document is not parsed.
  pages_stay :
      (row : DocumentPage) (rows : List DocumentPage) (c : Conn Db)
      → select_where (page_of_document d.id) c.working.pages ≡ row ∷ rows
      → load_pages tools d c ≡ (ok (map stored_page (row ∷ rows)), c)
  unfolding load_pages pages_or_parse
  pages_stay row rows c h = rw h refl

  parse_and_extract-Returns :
      (id : ℕ) (c c' : Conn Db) (cs : List Claim)
      → parse_and_extract tools d o id c ≡ (ok cs, c')
      → select_where (claim_of_opportunity o.id) c'.working.claims ≡ cs
  unfolding parse_and_extract
  parse_and_extract-Returns id c c' cs h =
      let (pages, c1, loaded, ran) =
        bind_returned (load_pages tools d) (claims_of_pages tools d o id) c c' cs h in
      let (cs', c2, ran', mine) = claims_of_pages-Returns id pages c1 in
      let same = sym ran' ∙ ran in ground arith

-- If the extraction from a document returned claims, at least one, and left pages of the document,
-- then another extraction from it returns the same claims and changes nothing: it does not read the
-- object store, and adds neither pages nor claims nor evidence, whatever ids it draws.
pub extract_again :
    {D : Type 0} (tools : IngestTools D) (d : Document) (o : Opportunity) (id id' : ℕ)
    (c c' : Conn Db) (x : Claim) (xs : List Claim) (row : DocumentPage) (rows : List DocumentPage)
    → parse_and_extract tools d o id c ≡ (ok (x ∷ xs), c')
    → select_where (page_of_document d.id) c'.working.pages ≡ row ∷ rows
    → parse_and_extract tools d o id' c' ≡ (ok (x ∷ xs), c')
unfolding parse_and_extract
extract_again tools d o id id' c c' x xs row rows ran paged =
    bind_run (load_pages tools d) (claims_of_pages tools d o id') c' c' _
      (pages_stay tools d o row rows c' paged)
    ∙ claims_stay tools d o id' (map stored_page (row ∷ rows)) x xs c'
        (parse_and_extract-Returns tools d o id c c' (x ∷ xs) ran)
