-- ===== src/Sourcing/Known.antt =====
-- Items that are harvested again (`_process_harvest` of backend/app/services/pipeline.py).
use text.Mathlib.TextEquality.{eq_iff}
use dolphin_vc.Sourcing.Signals.{signal_is}
use dolphin_vc.Sourcing.Items.{
  Tally, signal_of, same_signal, ingest_new, ItemDraw, ingest_unless, ingest_items,
  NormalizedSignal,
}
use mathlib.Core.Path.{subst}
use dolphin_vc.Base.{
  find_where-insert, ==_refl, update_where, change, ℕ, ◌+◌, ◌≡◌, refl, ap, inl, inr, arith, String,
  Bool, true, Option, none, some, List, [], ◌∷◌, ◌++◌, All, is_some, find_where, find_where-append,
  find_where-update_where, Option-cases,
}
use dolphin_vc.Errors.{Result, ok}
use dolphin_vc.Session.{Conn, bind_returned}
use dolphin_vc.Records.{set_signals, Db, Signal, Source, SourcingChannel}
use dolphin_vc.Sourcing.Names.{Tools}
use dolphin_vc.Sourcing.Kept.{Sourced, ingest_items-Here, resolved-Here}

-- A signal like the item is there.
abbrev Known : ℕ → NormalizedSignal → Db → Type 0
Known source item db =
    is_some (find_where (same_signal source item.content_hash item.observed_at) db.signals) ≡ true

kept_row :
    (p : Signal → Bool) (l : List Signal) (s : Signal)
    → is_some (find_where p l) ≡ true
    → is_some (find_where p (l ++ s ∷ [])) ≡ true
kept_row p l s h = elim (Option-cases (find_where p l)) [
  | inl missing ↦ absurd (ground arith)
  | inr (a, found) ↦ rw (find_where-append p l (s ∷ []) a found) refl
]

updated_row :
    (p q : Signal → Bool) (g : Signal → Signal) (l : List Signal)
    → ((s : Signal) → p (change q g s) ≡ p s)
    → is_some (find_where p l) ≡ true
    → is_some (find_where p (update_where q g l)) ≡ true
updated_row p q g l same h = elim (Option-cases (find_where p l)) [
  | inl missing ↦ absurd (ground arith)
  | inr (a, found) ↦ rw (find_where-update_where p q g l same, found) refl
]

module _ (tools : Tools) (source : ℕ) (item : NormalizedSignal) where
  abbrev like : Signal → Bool
  like = same_signal source item.content_hash item.observed_at

  known : Sourced tools (Known source item)
  known = record {
    free = record {
      companies = λ rows db h. h;
      persons = λ rows db h. h;
      affiliations = λ rows db h. h;
      founder_scores = λ rows db h. h;
      founder_events = λ rows db h. h;
      snapshots = λ rows db h. h;
      chunks = λ rows db h. h;
      edges = λ rows db h. h;
      channels = λ rows db h. h;
    };
    sources = λ rows db h. h;
    agent_steps = λ rows db h. h;
    opened = λ o db none_live h. h;
    noted = λ s db none_like h. kept_row like db.signals s h;
    of_person = λ id person db h.
        updated_row like (signal_is tools id) (λ s. record s { person_id = person }) db.signals
          (λ s. ground arith) h;
    of_company = λ id company db h.
        updated_row like (signal_is tools id) (λ s. record s { company_id = company }) db.signals
          (λ s. ground arith) h;
    documents = λ rows db h. h;
    applications = λ rows db h. h;
    jobs = λ rows db h. h;
  }

module _ (tools : Tools) (signal_key : ℕ → String) (source : Source) (org : ℕ) where
  -- Items of which a signal is there are passed over.
  passed_over :
      (draw : ℕ → ItemDraw) (n : ℕ) (channel : SourcingChannel) (items : List NormalizedSignal)
      (t : Tally) (c : Conn Db)
      → All (λ item. Known source.id item c.working) items
      → ingest_items tools signal_key org draw n source channel items t c ≡ (ok t, c)
  unfolding ingest_items ingest_unless
  passed_over draw n channel [] t c h = refl
  passed_over draw n channel (item ∷ items) t c h =
      elim (Option-cases
        (find_where (same_signal source.id item.content_hash item.observed_at) c.working.signals)) [
          | inl missing ↦ absurd (ground (arith, h.0))
          | inr (s, found) ↦ rw found (passed_over draw (n + 1) channel items t c h.1)
        ]

  signal_like :
      (id : ℕ) (item : NormalizedSignal)
      → same_signal source.id item.content_hash item.observed_at (signal_of id org source.id item)
        ≡ true
  signal_like id item =
      rw
        (
          ==_refl source.id,
          (eq_iff item.content_hash item.content_hash).1 refl,
          ==_refl item.observed_at,
        )
        refl

  item_known :
      (draw : ItemDraw) (channel : SourcingChannel) (item : NormalizedSignal) (t t' : Tally)
      (c c' : Conn Db) (duplicate : Option Signal)
      → find_where (same_signal source.id item.content_hash item.observed_at) c.working.signals
        ≡ duplicate
      → ingest_unless tools signal_key org duplicate draw source channel item t c ≡ (ok t', c')
      → Known source.id item c'.working
  unfolding ingest_unless ingest_new
  item_known draw channel item t t' c c' (some s) found e =
      subst (λ (x : Conn Db). Known source.id item x.working)
        (ap (λ (r : Result Tally × Conn Db). r.1) e) (ap is_some found)
  item_known draw channel item t t' c c' none missing e =
      let mine = same_signal source.id item.content_hash item.observed_at in
      let signal = signal_of draw.signal_id org source.id item in
      let c1 : Conn Db = record c {
        working = set_signals (λ rows. rows ++ signal ∷ []) c.working;
      } in
      let there : find_where mine c1.working.signals ≡ some signal =
        find_where-insert mine mine c.working.signals signal (λ y h. h) missing
          (signal_like draw.signal_id item) in
      subst (λ (r : Result Tally × Conn Db). Known source.id item r.1.working) e
        (resolved-Here tools (λ _. Unit {0}) (Known source.id item) (known tools source.id item)
          signal_key org draw source channel item t c1 (tt, ap is_some there)).1

  items_known :
      (draw : ℕ → ItemDraw) (n : ℕ) (channel : SourcingChannel) (items : List NormalizedSignal)
      (t t' : Tally) (c c' : Conn Db)
      → ingest_items tools signal_key org draw n source channel items t c ≡ (ok t', c')
      → All (λ item. Known source.id item c'.working) items
  unfolding ingest_items
  items_known draw n channel [] t t' c c' e = tt
  items_known draw n channel (item ∷ items) t t' c c' e =
      let duplicate =
        find_where (same_signal source.id item.content_hash item.observed_at) c.working.signals in
      let (t1, c1, e1, f1) =
        bind_returned (ingest_unless tools signal_key org duplicate (draw n) source channel item t)
          (ingest_items tools signal_key org draw (n + 1) source channel items) c c' t' e in
      (
        subst (λ (r : Result Tally × Conn Db). Known source.id item r.1.working) f1
            (ingest_items-Here tools (λ _. Unit {0}) (Known source.id item)
              (known tools source.id item) signal_key org draw (n + 1) source channel items t1 c1
              (tt, item_known (draw n) channel item t t1 c c1 duplicate refl e1)).1,
        items_known draw (n + 1) channel items t1 t' c1 c' f1,
      )

-- What was ingested is not ingested again: once the items of a source have been ingested for an
-- organisation, ingesting them again puts in nothing and counts nothing, also for another
-- organisation, whatever ids it draws.
pub ingest_again :
    (tools : Tools) (signal_key : ℕ → String) (source : Source) (org org' : ℕ)
    (draw draw' : ℕ → ItemDraw) (n n' : ℕ) (channel channel' : SourcingChannel)
    (items : List NormalizedSignal) (t t' again : Tally) (c c' : Conn Db)
    → ingest_items tools signal_key org draw n source channel items t c ≡ (ok t', c')
    → ingest_items tools signal_key org' draw' n' source channel' items again c' ≡ (ok again, c')
ingest_again tools signal_key source org org' draw draw' n n' channel channel' items t t' again c c'
      e =
    passed_over tools signal_key source org' draw' n' channel' items again c'
      (items_known tools signal_key source org draw n channel items t t' c c' e)
