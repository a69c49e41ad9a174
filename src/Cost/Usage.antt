-- ===== src/Cost/Usage.antt =====
-- The `extract_usage_*` functions of burnlens/cost/calculator.py, over the objects of a provider's
-- response with the keys that the code reads; an absent key is `none`.
use burnlens.Prelude.{ℕ, ◌+◌, ◌-◌, ◌≤◌, ◌≡◌, Option, [], arith, or_else}
use burnlens.Cost.Calculator.{TokenUsage, billable_output}

pub record OpenAiUsage : Type 0 where
  pub prompt_tokens : Option ℕ
  pub completion_tokens : Option ℕ
  pub reasoning_tokens : Option ℕ  -- in `completion_tokens_details`
  pub completion_audio_tokens : Option ℕ
  pub cached_tokens : Option ℕ  -- in `prompt_tokens_details`
  pub prompt_audio_tokens : Option ℕ

pub record AnthropicUsage : Type 0 where
  pub input_tokens : Option ℕ
  pub output_tokens : Option ℕ
  pub cache_read_input_tokens : Option ℕ
  pub cache_creation_input_tokens : Option ℕ

pub record GoogleUsage : Type 0 where
  pub prompt_token_count : Option ℕ
  pub candidates_token_count : Option ℕ

module _ (W : Type 0) where
  unfoldable pub extract_usage_openai : OpenAiUsage → TokenUsage W
  extract_usage_openai u =
      let reasoning = or_else u.reasoning_tokens 0 in
      record {
        input_tokens = or_else u.prompt_tokens 0;
        output_tokens = or_else u.completion_tokens 0 - reasoning;
        reasoning_tokens = reasoning;
        cache_read_tokens = or_else u.cached_tokens 0;
        cache_write_tokens = 0;
        audio_input_tokens = or_else u.prompt_audio_tokens 0;
        audio_output_tokens = or_else u.completion_audio_tokens 0;
        units = [];
      }

  unfoldable pub extract_usage_anthropic : AnthropicUsage → TokenUsage W
  extract_usage_anthropic u = record {
    input_tokens = or_else u.input_tokens 0;
    output_tokens = or_else u.output_tokens 0;
    reasoning_tokens = 0;
    cache_read_tokens = or_else u.cache_read_input_tokens 0;
    cache_write_tokens = or_else u.cache_creation_input_tokens 0;
    audio_input_tokens = 0;
    audio_output_tokens = 0;
    units = [];
  }

  unfoldable pub extract_usage_google : GoogleUsage → TokenUsage W
  extract_usage_google u = record {
    input_tokens = or_else u.prompt_token_count 0;
    output_tokens = or_else u.candidates_token_count 0;
    reasoning_tokens = 0;
    cache_read_tokens = 0;
    cache_write_tokens = 0;
    audio_input_tokens = 0;
    audio_output_tokens = 0;
    units = [];
  }

  -- Of a completion that is long enough for its reasoning and audio tokens, every token is billed
  -- at one rate: as text, as reasoning or as audio.
  pub openai_completion_billed_once :
      (u : OpenAiUsage)
      → or_else u.reasoning_tokens 0 + or_else u.completion_audio_tokens 0
        ≤ or_else u.completion_tokens 0
      → let usage = extract_usage_openai u in
        billable_output usage + usage.reasoning_tokens + usage.audio_output_tokens
        ≡ or_else u.completion_tokens 0
  unfolding extract_usage_openai billable_output
  openai_completion_billed_once u h = ground arith
