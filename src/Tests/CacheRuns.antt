-- ===== src/Tests/CacheRuns.antt =====
-- platform_sdk/cache.py and models.py at concrete inputs.
use ai_platform_sdk.Prelude.{
  ℕ, ◌+◌, String, ◌≡◌, refl, true, false, Option, none, some, [], ◌∷◌, if◌then◌else◌, ◌<>◌, ◌==◌,
  inl, inr, Bool-cases, eq_iff, ◌↔◌,
}
use ai_platform_sdk.Prelude.Dict.{Dict, lookup, insert, has_key, NodupKeys}
use ai_platform_sdk.Json.{Json, Fields, str, obj, end, field}
use ai_platform_sdk.Resilience.{is_open}
use ai_platform_sdk.Tools.Errors.{JsonText}
use ai_platform_sdk.Tools.Cache.{
  Fetched, miss, bytes, Redis, tool_result_cache, cache_get, Times, World, cached_call,
}
use ai_platform_sdk.Tools.Cache.Laws.{cached_call_transparent}
use ai_platform_sdk.Tools.Cache.{make_cache_key}
use ai_platform_sdk.Tools.Cache.Order.{
  SortsKeys, SameLookups, named, SameLookups-update, make_cache_key_same,
}
use ai_platform_sdk.Models.{ToolResponse, make_tool_success, to_fields}
use ai_platform_sdk.Models.Cached.{cached_call-to_fields}

abbrev found_or_miss : Option String → Fetched
found_or_miss none = miss
found_or_miss (some v) = bytes (some v)

-- A server that keeps what it is given.
abbrev server : Redis
server = record {
  State = Dict String;
  fetch = λ key s. found_or_miss (lookup key s);
  setex = λ key ttl value s. (true, insert key value s);
}

abbrev counted : ℕ → Option String × ℕ
counted n = (some "rows", n + 1)

abbrev times : Times
times = record { get_started = 1; get_ended = 2; set_started = 3; set_ended = 4 }

abbrev world : World server ℕ
world = record { cache = tool_result_cache true 300; server = []; inner = 0 }

nothing_cached : (cache_get server 1 2 "k" world.cache world.server).0 ≡ none
unfolding cache_get lookup is_open
nothing_cached = refl

-- A reader that reads nothing.
abbrev no_json : JsonText
no_json = record { dumps = λ d. ""; loads = λ s. none }

cached_call_transparent_example :
    ((cached_call server no_json counted times "k" world).0 ≡ some "rows")
    × ((cached_call server no_json counted times "k" world).1.inner ≡ 1)
cached_call_transparent_example =
    cached_call_transparent server no_json counted times "k" world nothing_cached

-- A success, and a reader of its text.
abbrev envelope : ToolResponse
envelope = make_tool_success "12:00" (field "rows" (str "r") end)

abbrev envelope_text : Fields → String
envelope_text d = "envelope"

abbrev envelope_json : JsonText
envelope_json = record {
  dumps = λ d. "";
  loads = λ s. if s == "envelope" then some (obj (to_fields envelope)) else none;
}

abbrev answer_envelope : ℕ → Option String × ℕ
answer_envelope n = (some "envelope", n + 1)

cached_call-to_fields_example :
    ((cached_call server envelope_json answer_envelope times "k" world).0 ≡ some "envelope")
    × ((cached_call server envelope_json answer_envelope times "k" world).1.server ≡ [])
    × ((cached_call server envelope_json answer_envelope times "k" world).1.inner ≡ 1)
cached_call-to_fields_example =
    cached_call-to_fields server envelope_json answer_envelope envelope_text times "k" world
      envelope refl refl nothing_cached

abbrev text_of : Option Json → String
text_of (some (str s)) = s
text_of _ = ""

-- The values under three keys, in one order.
abbrev sorted_text : Dict Json → String
sorted_text d = text_of (lookup "a" d) <> text_of (lookup "b" d) <> text_of (lookup "fn" d)

sorted_text-SortsKeys : SortsKeys sorted_text
sorted_text-SortsKeys d e same = rw (same "a", same "b", same "fn") refl

abbrev left : Dict Json
left = ("a", str "1") ∷ ("b", str "2") ∷ []

abbrev right : Dict Json
right = ("b", str "2") ∷ ("a", str "1") ∷ []

left-NodupKeys : NodupKeys left
unfolding has_key
left-NodupKeys = (refl, (refl, tt))

right-NodupKeys : NodupKeys right
unfolding has_key
right-NodupKeys = (refl, (refl, tt))

left-SameLookups : SameLookups left right
unfolding lookup
left-SameLookups k = elim (Bool-cases (k == "a")) [
  | inl same ↦ rw ((eq_iff k "a").0 same) refl
  | inr other ↦ rw other refl
]

abbrev search_tool : String
search_tool = "search"

left-named : SameLookups (named "search" left) (named "search" right)
left-named =
    SameLookups-update (("fn", str "search") ∷ []) left right left-NodupKeys right-NodupKeys
      left-SameLookups

no_fn : (has_key "fn" left ≡ false) × (has_key "fn" right ≡ false)
unfolding has_key
no_fn = (refl, refl)

make_cache_key_same_example :
    (make_cache_key sorted_text (λ s. s) "search" left
      ≡ make_cache_key sorted_text (λ s. s) "search" right)
    ↔ ((search_tool ≡ search_tool) × SameLookups left right)
make_cache_key_same_example =
    make_cache_key_same sorted_text (λ s. s) search_tool search_tool left right
      sorted_text-SortsKeys (λ h. left-named) (λ h. h) left-NodupKeys right-NodupKeys no_fn.0
      no_fn.1
