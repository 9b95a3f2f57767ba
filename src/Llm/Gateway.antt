-- ===== src/Llm/Gateway.antt =====
-- `LLMGateway.complete` and what it calls (backend/app/services/llm/gateway.py). The providers are a
-- parameter: what one attempt at a call ends in, how a payload is read, and how long it took.
use dolphin_vc.Base.{
  ℕ, zero, suc, String, Bool, true, false, Option, none, some, List, [], ◌∷◌, ◌++◌, if◌then◌else◌,
  str_eq,
}
use dolphin_vc.Errors.{AppError, ErrorCode, Result, ok, err, app_error}

pub data Purpose : Type 0 where
  extract axis memo search validate : Purpose

-- `Purpose.value`
unfoldable purpose_value : Purpose → String
purpose_value Purpose.extract = "extract"
purpose_value Purpose.axis = "axis"
purpose_value Purpose.memo = "memo"
purpose_value Purpose.search = "search"
purpose_value Purpose.validate = "validate"

-- The settings of the two providers.
pub record LlmSettings : Type 0 where
  pub openai_api_key : String
  pub openai_base_url : String
  pub openai_model_fast : String
  pub nvidia_nim_api_key : String
  pub nvidia_nim_base_url : String
  pub nvidia_model_reasoning : String

pub record Provider : Type 0 where
  pub name : String
  pub base_url : String
  pub api_key : String
  pub model : String

-- The tokens of a payload's `usage`, where it has them.
pub record Usage : Type 0 where
  pub prompt_tokens : ℕ
  pub completion_tokens : ℕ

-- A row of the log of calls.
pub record LlmCall : Type 0 where
  pub org_id : Option ℕ
  pub job_id : Option ℕ
  pub provider : String
  pub model : String
  pub purpose : String
  pub status : String
  pub prompt_tokens : ℕ
  pub completion_tokens : ℕ
  pub latency_ms : ℕ
  pub error : Option String

-- `LLMResult`, less `parsed`, which is `content` as the schema reads it.
pub record LlmResult : Type 0 where
  pub content : String
  pub provider : String
  pub model : String
  pub cached : Bool
  pub cost_usd : ℕ

-- One attempt at a call: a payload, a timeout or network error, or another error that `complete`
-- catches; an error is its class's name.
pub data Reply (P : Type 0) : Type 0 where
  reply : P → Reply P
  transient : String → Reply P
  permanent : String → Reply P

-- A payload that was read and validated, or the error that this ended in.
pub data Reading : Type 0 where
  readable : String → Usage → Reading
  unreadable : String → Reading

pub record Upstream (P : Type 0) : Type 0 where
  pub post : Provider → ℕ → Reply P
  pub read : P → Reading
  pub latency : Provider → ℕ

-- Whom a call is for, and whether the gateway has a session to record it in.
pub record CallContext : Type 0 where
  pub org_id : Option ℕ
  pub job_id : Option ℕ
  pub purpose : Purpose
  pub has_session : Bool

abbrev configured : String → Provider → List Provider
configured key p = if str_eq key "" then [] else p ∷ []

-- The providers that have a key, in order.
unfoldable pub providers : LlmSettings → List Provider
providers s =
    configured s.openai_api_key (record {
      name = "openai";
      base_url = s.openai_base_url;
      api_key = s.openai_api_key;
      model = s.openai_model_fast;
    })
    ++ configured s.nvidia_nim_api_key (record {
      name = "nvidia_nim";
      base_url = s.nvidia_nim_base_url;
      api_key = s.nvidia_nim_api_key;
      model = s.nvidia_model_reasoning;
    })

abbrev no_usage : Usage
no_usage = record { prompt_tokens = 0; completion_tokens = 0 }

-- The row that `_record` adds.
unfoldable pub new_call : CallContext → Provider → String → ℕ → Usage → Option String → LlmCall
unfolding purpose_value
new_call c p status latency usage error = record {
  org_id = c.org_id;
  job_id = c.job_id;
  provider = p.name;
  model = p.model;
  purpose = purpose_value c.purpose;
  status = status;
  prompt_tokens = usage.prompt_tokens;
  completion_tokens = usage.completion_tokens;
  latency_ms = latency;
  error = error;
}

-- `_record`
abbrev pub record_call : CallContext → LlmCall → List LlmCall → List LlmCall
record_call c call calls = if c.has_session then calls ++ call ∷ [] else calls

abbrev no_provider : AppError
no_provider =
    app_error ErrorCode.source_unavailable
      "No LLM provider is configured; deterministic analysis remains available." 503

abbrev all_failed : AppError
all_failed =
    record (app_error ErrorCode.upstream_error "Every configured LLM provider failed." 502) {
      retryable = true;
    }

module _ {P : Type 0} (up : Upstream P) where
  -- `@retry`: a timeout or a network error is tried again, `left` times more.
  unfoldable retrying : ℕ → ℕ → Provider → Reply P
  retrying zero number p = up.post p number
  retrying (suc left) number p = elim (up.post p number) [
    | reply x ↦ reply x
    | transient e ↦ retrying left (suc number) p
    | permanent e ↦ permanent e
  ]

  -- `_openai_compatible`, which makes three attempts, and the reading of its payload.
  unfoldable pub consult : Provider → Reading
  unfolding retrying
  consult p = elim (retrying 2 0 p) [
    | reply x ↦ up.read x
    | transient e ↦ unreadable e
    | permanent e ↦ unreadable e
  ]

  module _ (c : CallContext) where
    abbrev pub ok_call : Provider → Usage → LlmCall
    ok_call p usage = new_call c p "ok" (up.latency p) usage none

    abbrev pub failed_call : Provider → String → LlmCall
    failed_call p e = new_call c p "failed" (up.latency p) no_usage (some e)

    -- One round of the loop, given what asking the provider ended in and the rounds behind it.
    abbrev pub round :
        Provider
        → Reading
        → (List LlmCall → Result LlmResult × List LlmCall)
        → List LlmCall
        → Result LlmResult × List LlmCall
    round p (readable content usage) rest calls = (
      ok (record {
        content = content;
        provider = p.name;
        model = p.model;
        cached = false;
        cost_usd = 0;
      }),
      record_call c (ok_call p usage) calls,
    )
    round p (unreadable e) rest calls = rest (record_call c (failed_call p e) calls)

    -- The loop over the providers.
    unfoldable pub try_providers : List Provider → List LlmCall → Result LlmResult × List LlmCall
    unfolding new_call
    try_providers [] calls = (err all_failed, calls)
    try_providers (p ∷ rest) calls = round p (consult p) (try_providers rest) calls

    abbrev pub or_none : List Provider → List LlmCall → Result LlmResult × List LlmCall
    or_none [] calls = (err no_provider, calls)
    or_none (p ∷ rest) calls = try_providers (p ∷ rest) calls

    unfoldable pub complete : LlmSettings → List LlmCall → Result LlmResult × List LlmCall
    unfolding try_providers providers
    complete s calls = or_none (providers s) calls
