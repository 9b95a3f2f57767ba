-- ===== src/Pipeline/Stages.antt =====
-- What each stage of a screening keeps (`process_job` of backend/app/services/pipeline.py).
use dolphin_vc.Pipeline.Kept.{step-Here, save_application-Here, add_scores-Here, Here, Kept}
use dolphin_vc.Scoring.Recommendation.{Recommendation}
use dolphin_vc.Extraction.Deck.{parse_deck, ParsedDeck, ParsedPage}
use dolphin_vc.Errors.{ok, err, Result}
use dolphin_vc.Pipeline.Axes.{
  find_thesis, fit_of, founder_scores_of, axis_drafts, add_scores, thesis_fit, score_axes,
}
use dolphin_vc.Pipeline.Process.{
  found_opportunity, found_id, found_company, claims_gathered, axes_scored, memo_row, score_stage,
  recommend_stage, prescreen_unless, prescreen, open_screening, memo_stage, gather_claims,
  claims_of_document,
}
use dolphin_vc.Extraction.Ingest.{
  text_of, deck_source, claim_of_opportunity, ensure_deck_source, store_parsed, parse_stored,
  parse_and_extract, pages_or_parse, load_pages, deck_source_or, claims_or_extract, claims_of_pages,
  add_claims,
}
use dolphin_vc.Types.{OpportunityStage, ApplicationStatus}
use dolphin_vc.Session.{query, pure, ◌>>◌, commit, ◌>>=◌, bind-Keeps, Keeps}
use dolphin_vc.Records.{
  set_memos, Source, OpportunityScore, PrescreenResult, DocumentPage, Company, Claim, Opportunity,
  Job, Document, Application,
}
use dolphin_vc.Pipeline.Screen.{
  set_fit, verdict, memo_ready, set_stage, save_opportunity, find_document, save_application,
  latest_memo, find_application, ScreenDraw, ScreenTools,
}
use dolphin_vc.Jobs.Worker.{step}
use dolphin_vc.Base.{
  ◌==◌, find_where, String, length, ◌++◌, select_where, ℕ, Option, none, some, List, [], ◌∷◌,
}

module _ {D : Type 0} (tools : ScreenTools D) (draw : ScreenDraw) (k : Kept tools draw) where
  pub open_screening-Here :
      (j : Job) (o : Opportunity) → Keeps (Here tools draw k) (open_screening tools draw j o)
  unfolding open_screening
  open_screening-Here j o c h =
      let db = save_opportunity o.id (set_stage OpportunityStage.screening) c.working in
      let u =
        save_application-Here tools draw k (find_application j.input.application_id db)
          ApplicationStatus.parsing db h.1 in
      (u, u)

  prescreen_unless-Here :
      (o : Opportunity) (r : Option PrescreenResult)
      → Keeps (Here tools draw k) (prescreen_unless tools draw o r)
  unfolding prescreen_unless
  prescreen_unless-Here o none c h = (h.1, h.1)
  prescreen_unless-Here o (some r) c h = h

  pub prescreen-Here :
      (j : Job) (o : Opportunity) → Keeps (Here tools draw k) (prescreen tools draw j o)
  unfolding prescreen
  prescreen-Here j o =
      bind-Keeps (Here tools draw k)
        (step j.id 1 "prescreen" 800 "Mechanical prescreen completed." (draw.clock 1))
        (λ _.
          query (λ db. find_where (λ (r : PrescreenResult). r.opportunity_id == o.id) db.prescreens)
          >>= prescreen_unless tools draw o)
        (step-Here tools draw k j.id 1 "prescreen" 800 "Mechanical prescreen completed."
          (draw.clock 1))
        (λ _ c h.
          prescreen_unless-Here o
            (find_where (λ (r : PrescreenResult). r.opportunity_id == o.id) c.working.prescreens) c
            h)

  add_claims-Here :
      (d : Document) (o : Opportunity) (id : ℕ) (pages : List ParsedPage) (s : Source)
      → Keeps (Here tools draw k) (add_claims tools.ingest d o id pages s)
  unfolding add_claims
  add_claims-Here d o id pages s c h = h

  source_added-Here :
      (d : Document) (o : Opportunity) (id : ℕ) (pages : List ParsedPage) (found : Option Source)
      → Keeps (Here tools draw k) (deck_source_or found id >>= add_claims tools.ingest d o id pages)
  unfolding deck_source_or
  source_added-Here d o id pages none c h = add_claims-Here d o id pages (deck_source id) _ h
  source_added-Here d o id pages (some s) c h = add_claims-Here d o id pages s c h

  claims_or_extract-Here :
      (d : Document) (o : Opportunity) (id : ℕ) (pages : List ParsedPage) (existing : List Claim)
      → Keeps (Here tools draw k) (claims_or_extract tools.ingest d o id pages existing)
  unfolding claims_or_extract ensure_deck_source
  claims_or_extract-Here d o id pages (x ∷ existing) c h = h
  claims_or_extract-Here d o id pages [] c h = source_added-Here d o id pages _ c h

  store_parsed-Here :
      (d : Document) (parsed : Result ParsedDeck)
      → Keeps (Here tools draw k) (store_parsed tools.ingest d parsed)
  unfolding store_parsed
  store_parsed-Here d (err e) c h = h
  store_parsed-Here d (ok deck) c h = h

  parse_stored-Here :
      (d : Document) (bytes : Result D)
      → Keeps (Here tools draw k) (parse_stored tools.ingest d bytes)
  unfolding parse_stored
  parse_stored-Here d (err e) = λ c h. h
  parse_stored-Here d (ok bytes) =
      store_parsed-Here d (parse_deck tools.ingest.readers bytes (text_of d.mime))

  pages_or_parse-Here :
      (d : Document) (rows : List DocumentPage)
      → Keeps (Here tools draw k) (pages_or_parse tools.ingest d rows)
  unfolding pages_or_parse
  pages_or_parse-Here d [] = parse_stored-Here d (tools.ingest.get d.s3_key)
  pages_or_parse-Here d (row ∷ rows) = λ c h. h

  load_pages-Here : (d : Document) → Keeps (Here tools draw k) (load_pages tools.ingest d)
  unfolding load_pages
  load_pages-Here d c h = pages_or_parse-Here d _ c h

  claims_of_pages-Here :
      (d : Document) (o : Opportunity) (id : ℕ) (pages : List ParsedPage)
      → Keeps (Here tools draw k) (claims_of_pages tools.ingest d o id pages)
  unfolding claims_of_pages
  claims_of_pages-Here d o id pages c h = claims_or_extract-Here d o id pages _ c h

  parse_and_extract-Here :
      (d : Document) (o : Opportunity) (id : ℕ)
      → Keeps (Here tools draw k) (parse_and_extract tools.ingest d o id)
  unfolding parse_and_extract
  parse_and_extract-Here d o id =
      bind-Keeps (Here tools draw k) (load_pages tools.ingest d)
        (claims_of_pages tools.ingest d o id) (load_pages-Here d) (claims_of_pages-Here d o id)

  claims_of_document-Here :
      (o : Opportunity) (d : Option Document) (claims : List Claim)
      → Keeps (Here tools draw k) (claims_of_document tools draw o d claims)
  unfolding claims_of_document
  claims_of_document-Here o none claims = λ c h. h
  claims_of_document-Here o (some d) claims =
      bind-Keeps (Here tools draw k) (parse_and_extract tools.ingest d o draw.first_id)
        (λ claims'. commit >> pure claims') (parse_and_extract-Here d o draw.first_id)
        (λ claims' c h. (h.1, h.1))

  step-pure-Here :
      {A : Type 0} (job seq : ℕ) (action : String) (progress : ℕ) (message : String) (now : ℕ)
      (a : A)
      → Keeps (Here tools draw k) (step job seq action progress message now >> pure a)
  step-pure-Here job seq action progress message now a =
      bind-Keeps (Here tools draw k) (step job seq action progress message now) (λ _. pure a)
        (step-Here tools draw k job seq action progress message now) (λ _ c h. h)

  pub gather_claims-Here :
      (j : Job) (o : Opportunity) → Keeps (Here tools draw k) (gather_claims tools draw j o)
  unfolding gather_claims
  gather_claims-Here j o c h =
      bind-Keeps (Here tools draw k)
        (claims_of_document tools draw o (find_document j.input.document_id c.working)
          (select_where (claim_of_opportunity o.id) c.working.claims))
        (claims_gathered tools draw j) (claims_of_document-Here o _ _)
        (λ claims.
          step-pure-Here j.id 2 "extract_claims" 3200 (tools.extracted (length claims))
            (draw.clock 2) claims)
        c h

  pub score_stage-Here :
      (j : Job) (o : Opportunity) (claims : List Claim)
      → Keeps (Here tools draw k) (score_stage tools draw j o claims)
  unfolding score_stage score_axes
  score_stage-Here j o claims c h =
      let drafts = axis_drafts (founder_scores_of o.company_id c.working) claims in
      bind-Keeps (Here tools draw k) (add_scores o.id drafts) (axes_scored tools draw j)
        (add_scores-Here tools draw k o.id drafts)
        (λ axes c' h'.
          step-pure-Here j.id 3 "score_axes" 5800 "Three independent axes scored without averaging."
            (draw.clock 3) axes (commit c').1 (h'.1, h'.1))
        c h

  pub recommend_stage-Here :
      (j : Job) (o : Opportunity) (company : Company) (claims : List Claim)
      (axes : List OpportunityScore)
      → Keeps (Here tools draw k) (recommend_stage tools draw j o company claims axes)
  unfolding recommend_stage thesis_fit
  recommend_stage-Here j o company claims axes c h =
      step-pure-Here j.id 4 "thesis_and_recommend" 7200 "Thesis fit and recommendation computed."
        (draw.clock 4)
        (verdict tools.floats claims axes
          (fit_of tools.casefold tools.round company (find_thesis o.thesis_id c.working)))
        (record c {
          working =
              save_opportunity o.id
                (set_fit
                  (fit_of tools.casefold tools.round company (find_thesis o.thesis_id c.working)).0)
                c.working;
        })
        h

  pub memo_stage-Here :
      (j : Job) (o : Opportunity) (a : Option Application) (claims : List Claim)
      (r : Recommendation)
      → Keeps (Here tools draw k) (memo_stage tools draw j o a claims r)
  unfolding memo_stage
  memo_stage-Here j o a claims r c h =
      let row = memo_row tools draw o claims r (latest_memo o.id c.working.memos) in
      let db =
        save_opportunity o.id (memo_ready (draw.clock 5))
          (set_memos (λ memos. memos ++ row ∷ []) c.working) in
      let after = save_application a ApplicationStatus.in_diligence db in
      let u =
        save_application-Here tools draw k a ApplicationStatus.in_diligence db
          (k.noted o claims r c.working.scores c.working.memos c.working.jobs h.1) in
      step-Here tools draw k j.id 5 "memo" 9500
        "Evidence-backed memo generated; gaps marked not disclosed." (draw.clock 5)
        (record { committed = after; working = after }) (u, u)

  found_company-Here :
      (o : Opportunity) (found : Option Company)
      → Keeps (Here tools draw k) (found_company tools draw o found)
  unfolding found_company
  found_company-Here o none c h = h
  found_company-Here o (some company) c h = h

  found_opportunity-Here :
      (found : Option Opportunity) → Keeps (Here tools draw k) (found_opportunity tools draw found)
  unfolding found_opportunity
  found_opportunity-Here none c h = h
  found_opportunity-Here (some o) c h = found_company-Here o _ c h

  pub found_id-Here : (id : Option ℕ) → Keeps (Here tools draw k) (found_id tools draw id)
  unfolding found_id
  found_id-Here none c h = h
  found_id-Here (some id) c h = found_opportunity-Here _ c h
