-- ===== src/Budget/Estimate/Bounds.antt =====
-- The least estimate of a request.
use burnlens.Prelude.{◌>>=◌, ℕ, ◌+◌, ◌≤◌, ◌≡◌, Option, none, some, arith}
use burnlens.Json.{Json, null, bool, int, negative, float, str, arr, obj, get}
use burnlens.Budget.Estimate.{
  at_least_ten, input_tokens_of, content_chars, gemini_chars, chars_in, prompt_chars, or_value,
  output_tokens_of, estimate_request_tokens,
}

input_tokens_of_bound : (chars : ℕ) → 10 ≤ input_tokens_of chars
unfolding input_tokens_of at_least_ten
input_tokens_of_bound chars = ground arith

chain_bound :
    (a b c : Option ℕ) (k out n m : ℕ)
    → ◌≡◌ {A = Option (ℕ × ℕ)}
        (do x ← a; y ← b; z ← c; some (input_tokens_of (x + y + z + k), out))
        (some (n, m))
    → 10 ≤ n
chain_bound none b c k out n m h = ground arith
chain_bound (some x) none c k out n m h = ground arith
chain_bound (some x) (some y) none k out n m h = ground arith
chain_bound (some x) (some y) (some z) k out n m h =
    ground (arith, input_tokens_of_bound (x + y + z + k))

-- A body whose tokens can be estimated is estimated at ten input tokens at least.
pub estimate_request_tokens_bound :
    (str_len : Json → ℕ) (body : Option Json) (n m : ℕ)
    → estimate_request_tokens str_len body ≡ some (n, m)
    → 10 ≤ n
unfolding estimate_request_tokens
estimate_request_tokens_bound str_len none n m h = ground arith
estimate_request_tokens_bound str_len (some (obj fs)) n m h =
    chain_bound (chars_in content_chars "content" (get "messages" fs))
      (content_chars (get "system" fs)) (chars_in gemini_chars "parts" (get "contents" fs))
      (prompt_chars str_len (get "prompt" fs))
      (output_tokens_of (or_value (get "max_tokens" fs) (get "max_completion_tokens" fs))) n m h
estimate_request_tokens_bound str_len (some null) n m h = ground arith
estimate_request_tokens_bound str_len (some (bool b)) n m h = ground arith
estimate_request_tokens_bound str_len (some (int k)) n m h = ground arith
estimate_request_tokens_bound str_len (some (negative k)) n m h = ground arith
estimate_request_tokens_bound str_len (some (float b)) n m h = ground arith
estimate_request_tokens_bound str_len (some (str s)) n m h = ground arith
estimate_request_tokens_bound str_len (some (arr vs)) n m h = ground arith
