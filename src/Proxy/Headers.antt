-- ===== src/Proxy/Headers.antt =====
-- The auth header of a request: burnlens/proxy/interceptor.py. `lower`, `strip` and the removal of the
-- Bearer prefixes are Python's.
pub mod Swap
use Prim.Native.String.{◌++◌}
use burnlens.Prelude.{
  String, Bool, not, ◌&&◌, ◌||◌, Option, none, some, List, [], ◌∷◌, map, ◌==◌, starts_with,
  if◌then◌else◌,
}
use burnlens.Prelude.Lists.{filter, contains}
use burnlens.Prelude.Dict.{Dict, lookup, insert}

pub record TextFunctions : Type 0 where
  pub lower : String → String
  pub strip : String → String
  pub remove_bearer : String → String  -- `.removeprefix("Bearer ").removeprefix("bearer ")`
  pub sha256 : String → String

lowered : TextFunctions → Dict String → Dict String → Dict String
lowered t [] acc = acc
lowered t ((k, v) ∷ headers) acc = lowered t headers (insert (t.lower k) v acc)

-- `{k.lower(): v for k, v in headers.items()}`
unfoldable pub lower_headers : TextFunctions → Dict String → Dict String
unfolding lowered
lower_headers t headers = lowered t headers []

bearer : TextFunctions → Option String → Option (String × String)
bearer t none = none
bearer t (some auth) =
    let token = t.strip (t.remove_bearer auth) in
    if auth == "" || token == "" then none else some (token, "authorization")

plain : TextFunctions → String → Option String → Option (String × String)
plain t name none = none
plain t name (some key) = if key == "" || t.strip key == "" then none else some (t.strip key, name)

first_token : Option (String × String) → Option (String × String) → Option (String × String)
first_token none b = b
first_token (some a) b = some a

-- `_extract_auth_token`
unfoldable pub extract_auth_token : TextFunctions → Dict String → Option (String × String)
unfolding bearer plain first_token
extract_auth_token t headers =
    let h = lower_headers t headers in
    first_token (bearer t (lookup "authorization" h)) (
      first_token (plain t "x-api-key" (lookup "x-api-key" h))
        (plain t "x-goog-api-key" (lookup "x-goog-api-key" h)))

hash_of : TextFunctions → Option (String × String) → Option String
hash_of t none = none
hash_of t (some (token, name)) = some (t.sha256 token)

-- `_extract_api_key_hash`
unfoldable pub extract_api_key_hash : TextFunctions → Dict String → Option String
unfolding hash_of
extract_api_key_hash t headers = hash_of t (extract_auth_token t headers)

-- `_STRIP_REQUEST_HEADERS`
abbrev pub strip_request_headers : List String
strip_request_headers =
    "host" ∷ "content-length" ∷ "transfer-encoding" ∷ "connection" ∷ "keep-alive" ∷ "te"
    ∷ "trailers" ∷ "upgrade" ∷ "accept-encoding" ∷ []

-- `_clean_request_headers` with the provider's extra headers
unfoldable pub clean_request_headers : TextFunctions → List String → Dict String → Dict String
clean_request_headers t extra headers =
    filter
      (λ header.
        not (contains strip_request_headers (t.lower header.0))
        && (not (contains (map t.lower extra) (t.lower header.0))
            && not (starts_with (t.lower header.0) "x-burnlens-")))
      headers

-- the value that carries a key in a header
unfoldable pub auth_value : String → String → String
auth_value name key = if name == "authorization" then "Bearer " ++ key else key

-- the swap of a virtual key for the provider's key
unfoldable pub swap_key : TextFunctions → String → String → Dict String → Dict String
swap_key t name key headers =
    insert name (auth_value name key) (filter (λ header. not (t.lower header.0 == name)) headers)
