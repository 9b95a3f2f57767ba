-- ===== src/Tests/Llm.antt =====
-- The gateway with a first provider that times out and a second that answers.
use dolphin_vc.Base.{◌≡◌, refl, String, true, false, none, [], if◌then◌else◌, str_eq}
use dolphin_vc.Errors.{ok}
use dolphin_vc.Llm.Gateway.{
  LlmSettings, LlmResult, Purpose, Upstream, CallContext, reply, transient, readable, consult,
  complete,
}

abbrev up : Upstream String
up = record {
  post = λ p number. if str_eq p.name "openai" then transient "ReadTimeout" else reply "forty-two";
  read = λ text. readable text (record { prompt_tokens = 3; completion_tokens = 2 });
  latency = λ p. 40;
}

abbrev settings : LlmSettings
settings = record {
  openai_api_key = "k1";
  openai_base_url = "https://api.openai.com/v1";
  openai_model_fast = "gpt-4.1-mini";
  nvidia_nim_api_key = "k2";
  nvidia_nim_base_url = "https://integrate.api.nvidia.com/v1";
  nvidia_model_reasoning = "meta/llama-3.3-70b-instruct";
}

abbrev context : CallContext
context = record { org_id = none; job_id = none; purpose = Purpose.memo; has_session = true }

abbrev result : LlmResult
result = record {
  content = "forty-two";
  provider = "nvidia_nim";
  model = "meta/llama-3.3-70b-instruct";
  cached = false;
  cost_usd = 0;
}

completed : (complete up context settings []).0 ≡ ok result
unfolding complete consult
completed = refl
