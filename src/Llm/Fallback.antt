-- ===== src/Llm/Fallback.antt =====
-- Which provider answers, and what is recorded (backend/app/services/llm/gateway.py).
use dolphin_vc.Base.{
  sym, ℕ, ◌+◌, ◌≡◌, refl, ap, ◌∙◌, inl, inr, ◌⊎◌, String, Bool, true, false, List, [], ◌∷◌, ◌++◌,
  arith, length, any_where, if◌then◌else◌,
}
use dolphin_vc.Errors.{Result, ok, is_ok}
use dolphin_vc.Llm.Gateway.{
  LlmSettings, Provider, round, or_none, record_call, failed_call, ok_call, LlmCall, LlmResult,
  Reading, readable, unreadable, Upstream, CallContext, providers, consult, try_providers, complete,
  Usage,
}

abbrev is_readable : Reading → Bool
is_readable (readable _ _) = true
is_readable (unreadable _) = false

Reading-cases :
    (r : Reading)
    → ((e : String) × (r ≡ unreadable e)) ⊎ ((s : String) × (u : Usage) × (r ≡ readable s u))
Reading-cases (readable s u) = inr (s, u, refl)
Reading-cases (unreadable e) = inl (e, refl)

module _ {P : Type 0} (up : Upstream P) where
  -- The provider answers, after its retries, with content that can be read.
  abbrev answers : Provider → Bool
  answers p = is_readable (consult up p)

  -- A provider that answers, with the ones before it in a list, of which none does.
  pub record First (ps : List Provider) (r : LlmResult) : Type 0 where
    pub before : List Provider
    pub chosen : Provider
    pub after : List Provider
    pub usage : Usage
    pub split : ps ≡ before ++ chosen ∷ after
    pub silent : any_where answers before ≡ false
    pub content : consult up chosen ≡ readable r.content usage
    pub named : (r.provider ≡ chosen.name) × (r.model ≡ chosen.model)

  -- The number of providers that are asked: those up to the first that answers.
  abbrev asked : List Provider → ℕ
  asked [] = 0
  asked (p ∷ rest) = let more = asked rest in if answers p then 1 else 1 + more

  length-insert : (l : List LlmCall) (x : LlmCall) → length (l ++ x ∷ []) ≡ length l + 1
  length-insert [] x = refl
  length-insert (y ∷ l) x = omega (arith, length-insert l x)

  -- One more provider that does not answer.
  later :
      (p : Provider) (ps : List Provider) (r : LlmResult)
      → answers p ≡ false
      → First ps r
      → First (p ∷ ps) r
  unfolding any_where
  later p ps r no' f = record {
    before = p ∷ f.before;
    chosen = f.chosen;
    after = f.after;
    usage = f.usage;
    split = ap (◌∷◌ p) f.split;
    silent = ground (arith, no', f.silent);
    content = f.content;
    named = f.named;
  }

  module _ (c : CallContext) where
    recorded-length :
        (x : LlmCall) (calls : List LlmCall)
        → c.has_session ≡ true
        → length (record_call c x calls) ≡ length calls + 1
    recorded-length x calls h = ground (arith, h, length-insert calls x)

    -- The round in which the provider asked ended in the reading.
    round_lem :
        (p : Provider) (ps : List Provider) (calls : List LlmCall) (reading : Reading)
        → consult up p ≡ reading
        → try_providers up c (p ∷ ps) calls ≡ round up c p reading (try_providers up c ps) calls
    unfolding try_providers
    round_lem p ps calls reading e = ap (λ x. round up c p x (try_providers up c ps) calls) e

    tried-is_ok :
        (ps : List Provider) (calls : List LlmCall)
        → is_ok (try_providers up c ps calls).0 ≡ any_where answers ps
    unfolding try_providers any_where
    tried-is_ok [] calls = refl
    tried-is_ok (p ∷ ps) calls = elim (Reading-cases (consult up p)) [
      | inl (e, no') ↦
          ap (λ (x : Result LlmResult × List LlmCall). is_ok x.0)
            (round_lem p ps calls (unreadable e) no')
          ∙ tried-is_ok ps (record_call c (failed_call up c p e) calls)
          ∙ sym (ap (λ x. if is_readable x then true else any_where answers ps) no')
      | inr (s, u, yes') ↦
          ap (λ (x : Result LlmResult × List LlmCall). is_ok x.0)
            (round_lem p ps calls (readable s u) yes')
          ∙ sym (ap (λ x. if is_readable x then true else any_where answers ps) yes')
    ]

    tried-length :
        (ps : List Provider) (calls : List LlmCall)
        → c.has_session ≡ true
        → length (try_providers up c ps calls).1 ≡ length calls + asked ps
    unfolding try_providers
    tried-length [] calls h = omega arith
    tried-length (p ∷ ps) calls h = elim (Reading-cases (consult up p)) [
      | inl (e, no') ↦
          ap (λ (x : Result LlmResult × List LlmCall). length x.1)
            (round_lem p ps calls (unreadable e) no')
          ∙ tried-length ps (record_call c (failed_call up c p e) calls) h
          ∙ ap (λ n. n + asked ps) (recorded-length (failed_call up c p e) calls h)
          ∙ rw no' (omega arith)
      | inr (s, u, yes') ↦
          ap (λ (x : Result LlmResult × List LlmCall). length x.1)
            (round_lem p ps calls (readable s u) yes')
          ∙ recorded-length (ok_call up c p u) calls h
          ∙ rw yes' (omega arith)
    ]

    tried-First :
        (ps : List Provider) (calls : List LlmCall) (r : LlmResult)
        → (try_providers up c ps calls).0 ≡ ok r
        → First ps r
    unfolding try_providers any_where
    tried-First [] calls r h = absurd (ground (arith, h))
    tried-First (p ∷ ps) calls r h = elim (Reading-cases (consult up p)) [
      | inl (e, no') ↦ later p ps r (rw no' refl) (
          tried-First ps (record_call c (failed_call up c p e) calls) r (
            sym (
              ap (λ (x : Result LlmResult × List LlmCall). x.0)
                (round_lem p ps calls (unreadable e) no'))
            ∙ h))
      | inr (s, u, yes') ↦
          let same =
            sym (
              ap (λ (x : Result LlmResult × List LlmCall). x.0)
                (round_lem p ps calls (readable s u) yes'))
            ∙ h in
          record {
            before = [];
            chosen = p;
            after = ps;
            usage = u;
            split = refl;
            silent = refl;
            content = yes' ∙ ap (λ x. readable x u) (ground (arith, same));
            named = (ground (arith, same), ground (arith, same));
          }
    ]

    module _ (s : LlmSettings) (calls : List LlmCall) where
      -- A completion returns a result exactly if some configured provider answers.
      complete-is_ok : is_ok (complete up c s calls).0 ≡ any_where answers (providers s)
      unfolding complete any_where
      complete-is_ok = go (providers s)
        where
          go : (ps : List Provider) → is_ok (or_none up c ps calls).0 ≡ any_where answers ps
          go [] = refl
          go (p ∷ ps) = tried-is_ok (p ∷ ps) calls

      -- The result of a completion is the content of the first configured provider, in the order
      -- OpenAI and then NVIDIA, that answers: none before it does.
      complete-First : (r : LlmResult) → (complete up c s calls).0 ≡ ok r → First (providers s) r
      unfolding complete
      complete-First r = go (providers s)
        where
          go : (ps : List Provider) → (or_none up c ps calls).0 ≡ ok r → First ps r
          go [] h = absurd (ground (arith, h))
          go (p ∷ ps) h = tried-First (p ∷ ps) calls r h

      -- A completion with a session records one call for each provider that it asks, those up to
      -- the first that answers, whether it returns or is refused.
      complete-length :
          c.has_session ≡ true
          → length (complete up c s calls).1 ≡ length calls + asked (providers s)
      unfolding complete
      complete-length session = go (providers s)
        where
          go : (ps : List Provider) → length (or_none up c ps calls).1 ≡ length calls + asked ps
          go [] = omega arith
          go (p ∷ ps) = tried-length (p ∷ ps) calls session
