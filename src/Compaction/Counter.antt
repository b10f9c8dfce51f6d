-- ===== src/Compaction/Counter.antt =====
-- The lazily made token counter of platform_sdk/compaction.py.
use ai_platform_sdk.Prelude.{ℕ, String, ◌≡◌, refl, Option, none, some, List, [], ◌∷◌, All}
use ai_platform_sdk.Compaction.{Message, make_token_counter, get_token_counter}

-- The counters of a sequence of calls, each with the encoding that is installed at its time.
abbrev pub counters :
    List (Option (String → ℕ)) → Option (List Message → ℕ) → List (List Message → ℕ)
counters [] held = []
counters (e ∷ encodings) held =
    let (counter, after) = get_token_counter e held in counter ∷ counters encodings after

counters_held :
    (encodings : List (Option (String → ℕ))) (counter : List Message → ℕ)
    → All (λ c. c ≡ counter) (counters encodings (some counter))
unfolding get_token_counter
counters_held [] counter = tt
counters_held (e ∷ encodings) counter = (refl, counters_held encodings counter)

-- What is installed at the first use decides how tokens are counted ever after.
pub get_token_counter_once :
    (e : Option (String → ℕ)) (encodings : List (Option (String → ℕ)))
    → All (λ c. c ≡ make_token_counter e) (counters (e ∷ encodings) none)
unfolding get_token_counter
get_token_counter_once e encodings = (refl, counters_held encodings (make_token_counter e))
