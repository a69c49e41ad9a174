-- ===== src/Budget/Estimate.antt =====
-- `estimate_request_tokens` of burnlens/budget_engine.py, over the parsed body. An exception that
-- leaves the function (a `len` of a number, a `get` on a list) is `none`. What `str` makes of a
-- list element that is no text is a parameter.
pub mod Bounds
use Prim.Native.String.{count}
use burnlens.Prelude.{
  ◌>>=◌, ℕ, ◌+◌, ◌/◌, String, Bool, true, false, Option, none, some, ltb, ◌==◌, ◌==ℕ◌,
  if◌then◌else◌,
}
use burnlens.Json.{
  Json, null, bool, int, negative, float, str, arr, obj, Items, nil, cons, Fields, end, field, get,
}

-- `len(v)`: the characters of a text, the entries of a list or an object
items_length : Items → ℕ
items_length nil = 0
items_length (cons v vs) = items_length vs + 1

-- an object's keys, each counted once
fields_length : Fields → ℕ
fields_length end = 0
fields_length (field k v fs) =
    let rest = fields_length fs in elim (get k fs) [ none ↦ rest + 1 | some _ ↦ rest ]

unfoldable pub len : Json → Option ℕ
unfolding items_length fields_length
len (str s) = some (count s)
len (arr vs) = some (items_length vs)
len (obj fs) = some (fields_length fs)
len _ = none

-- `isinstance(part, dict) and "text" in part`, and then `len(part["text"])`
optional_len : Option Json → Option ℕ
optional_len none = some 0
optional_len (some v) = len v

unfoldable pub part_chars : Json → Option ℕ
unfolding len optional_len
part_chars (obj fs) = optional_len (get "text" fs)
part_chars _ = some 0

unfoldable pub parts_chars : Items → Option ℕ
unfolding part_chars
parts_chars nil = some 0
parts_chars (cons part parts) = do n ← part_chars part; m ← parts_chars parts; some (n + m)

-- a `content` or a `system`: a text, or a list of parts
unfoldable pub content_chars : Option Json → Option ℕ
unfolding parts_chars
content_chars (some (str s)) = some (count s)
content_chars (some (arr parts)) = parts_chars parts
content_chars _ = some 0

-- the `parts` of a Gemini item
unfoldable pub gemini_chars : Option Json → Option ℕ
unfolding parts_chars
gemini_chars (some (arr parts)) = parts_chars parts
gemini_chars _ = some 0

item_chars : (Option Json → Option ℕ) → String → Json → Option ℕ
item_chars chars key (obj fs) = chars (get key fs)
item_chars chars key _ = some 0

-- the loops over `messages` and `contents`
unfoldable pub list_chars : (Option Json → Option ℕ) → String → Items → Option ℕ
unfolding item_chars
list_chars chars key nil = some 0
list_chars chars key (cons item items) = do
  n ← item_chars chars key item
  m ← list_chars chars key items
  some (n + m)

unfoldable pub chars_in : (Option Json → Option ℕ) → String → Option Json → Option ℕ
unfolding list_chars
chars_in chars key (some (arr items)) = list_chars chars key items
chars_in chars key _ = some 0

-- `data.get("max_tokens") or data.get("max_completion_tokens")`
unfoldable pub is_truthy : Json → Bool
is_truthy null = false
is_truthy (bool b) = b
is_truthy (int n) = if n ==ℕ 0 then false else true
is_truthy (negative n) = if n ==ℕ 0 then false else true
is_truthy (float nonzero) = nonzero
is_truthy (str s) = if s == "" then false else true
is_truthy (arr nil) = false
is_truthy (arr _) = true
is_truthy (obj end) = false
is_truthy (obj _) = true

unfoldable pub or_value : Option Json → Option Json → Option Json
unfolding is_truthy
or_value none b = b
or_value (some a) b = if is_truthy a then some a else b

-- A negative count stands as 0: it is used in `max(0, count)` alone. `True` is the integer 1.
unfoldable pub output_tokens_of : Option Json → ℕ
output_tokens_of (some (int n)) = if n ==ℕ 0 then 1000 else n
output_tokens_of (some (negative n)) = if n ==ℕ 0 then 1000 else 0
output_tokens_of (some (bool true)) = 1
output_tokens_of _ = 1000

unfoldable pub at_least_ten : ℕ → ℕ
at_least_ten n = if ltb 10 n then n else 10

unfoldable pub input_tokens_of : ℕ → ℕ
unfolding at_least_ten
input_tokens_of chars = if ltb 0 chars then at_least_ten (chars / 4) else 100

module _ (str_len : Json → ℕ) where
  -- `sum(len(str(x)) for x in prompt)`
  unfoldable pub str_lens : Items → ℕ
  str_lens nil = 0
  str_lens (cons x xs) = str_len x + str_lens xs

  unfoldable pub prompt_chars : Option Json → ℕ
  unfolding str_lens
  prompt_chars (some (str s)) = count s
  prompt_chars (some (arr xs)) = str_lens xs
  prompt_chars _ = 0

  -- `none` as argument is a body that is no JSON
  unfoldable pub estimate_request_tokens : Option Json → Option (ℕ × ℕ)
  unfolding content_chars gemini_chars chars_in prompt_chars or_value output_tokens_of
      input_tokens_of
  estimate_request_tokens none = some (100, 1000)
  estimate_request_tokens (some (obj body)) = do
    messages ← chars_in content_chars "content" (get "messages" body)
    system ← content_chars (get "system" body)
    contents ← chars_in gemini_chars "parts" (get "contents" body)
    let chars = messages + system + contents + prompt_chars (get "prompt" body)
    let output = or_value (get "max_tokens" body) (get "max_completion_tokens" body)
    some (input_tokens_of chars, output_tokens_of output)
  estimate_request_tokens (some _) = none
