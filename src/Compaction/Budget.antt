-- ===== src/Compaction/Budget.antt =====
-- What the compaction of platform_sdk/compaction.py keeps of a conversation.
use mathlib.Core.Option.{some-injective}
use ai_platform_sdk.Prelude.{
  le→leb, ℕ, ◌≤◌, ◌<◌, ◌≡◌, refl, ap, ◌∙◌, String, Bool, true, false, not, Option, none, some, List,
  [], ◌∷◌, ◌++◌, ltb, leb, length, get_last?, keep, arith, Bool-cases, inl, inr, if◌then◌else◌,
}
use ai_platform_sdk.Compaction.{
  Message, not_system, make_token_counter, min_guard, State, messages_of, apply,
  compaction_modifier,
}

pub make_token_counter-nil : (encoding : Option (String → ℕ)) → make_token_counter encoding [] ≡ 0
unfolding make_token_counter
make_token_counter-nil none = refl
make_token_counter-nil (some encoded) = refl

-- The class and the factory are the same compaction: with compaction enabled and either token
-- counter, the factory's modifier returns on any state what the class returns on its messages.
pub apply-compaction_modifier :
    (encoding : Option (String → ℕ)) (trim_messages : ℕ → List Message → List Message) (limit : ℕ)
    (state : State)
    → compaction_modifier (make_token_counter encoding) trim_messages true limit state
      ≡ apply (make_token_counter encoding) trim_messages limit (messages_of state)
unfolding compaction_modifier apply
apply-compaction_modifier encoding trim_messages limit state = go (messages_of state)
  where
    go :
        (ms : List Message)
        → (if leb (make_token_counter encoding ms) limit
            then ms
            else min_guard ms (trim_messages limit ms))
          ≡ apply (make_token_counter encoding) trim_messages limit ms
    go [] = rw (make_token_counter-nil encoding) (ground arith)
    go (m ∷ ms) = refl

-- `strategy="last"`: whatever is kept of a conversation, if two messages or more are, ends with
-- its last message.
abbrev pub KeepsLast : (ℕ → List Message → List Message) → Type 0
KeepsLast trim =
    (limit : ℕ) (ms : List Message)
    → 2 ≤ length (trim limit ms)
    → get_last? (trim limit ms) ≡ get_last? ms

get_last?-append : (xs : List Message) (m : Message) → get_last? (xs ++ (m ∷ [])) ≡ some m
get_last?-append [] m = refl
get_last?-append (x ∷ []) m = refl
get_last?-append (x ∷ y ∷ xs) m = get_last?-append (y ∷ xs) m

get_last?-cons :
    (x : Message) (xs : List Message) (m : Message)
    → get_last? xs ≡ some m
    → get_last? (x ∷ xs) ≡ some m
get_last?-cons x [] m h = cc
get_last?-cons x (y ∷ xs) m h = h

get_last?-keep :
    (test : Message → Bool) (ms : List Message) (m : Message)
    → get_last? ms ≡ some m
    → test m ≡ true
    → get_last? (keep test ms) ≡ some m
unfolding keep
get_last?-keep test [] m h t = cc
get_last?-keep test (x ∷ []) m h t = rw (ap test (some-injective x m h) ∙ t) h
get_last?-keep test (x ∷ y ∷ ms) m h t =
    let below = get_last?-keep test (y ∷ ms) m h t in
    elim (Bool-cases (test x)) [
      | inl kept ↦ rw kept (get_last?-cons x (keep test (y ∷ ms)) m below)
      | inr dropped ↦ rw dropped below
    ]

guard_keeps_request :
    (ms trimmed : List Message) (m : Message)
    → (2 ≤ length trimmed → get_last? trimmed ≡ get_last? ms)
    → 2 ≤ length ms
    → get_last? ms ≡ some m
    → m.is_system ≡ false
    → get_last? (min_guard ms trimmed) ≡ some m
unfolding min_guard
guard_keeps_request ms trimmed m keeps two last request =
    elim (Bool-cases (ltb (length trimmed) 2)) [
      | inl few ↦
          rw (few, le→leb 2 (length ms) two, get_last?-keep not_system ms m last (ap not request))
            (get_last?-append (keep Message.is_system ms) m)
      | inr enough ↦ rw enough (keeps (ground arith) ∙ last)
    ]

-- The current request survives: of two messages or more that end with one that is no system
-- message, the compacted conversation ends with that message too, however far over the limit
-- it is.
pub apply_keeps_request :
    (counter : List Message → ℕ) (trim_messages : ℕ → List Message → List Message) (limit : ℕ)
    (ms : List Message) (m : Message)
    → KeepsLast trim_messages
    → 2 ≤ length ms
    → get_last? ms ≡ some m
    → m.is_system ≡ false
    → get_last? (apply counter trim_messages limit ms) ≡ some m
unfolding apply
apply_keeps_request counter trim limit [] m keeps two last request = cc
apply_keeps_request counter trim limit (x ∷ xs) m keeps two last request =
    elim (Bool-cases (leb (counter (x ∷ xs)) limit)) [
      | inl fits ↦ rw fits last
      | inr over ↦ rw over (
          guard_keeps_request (x ∷ xs) (trim limit (x ∷ xs)) m (keeps limit (x ∷ xs)) two last
            request)
    ]

-- A lone message over the limit is not protected: where the trim keeps nothing of it, the model
-- is given an empty conversation.
pub apply_lone_message :
    (counter : List Message → ℕ) (trim_messages : ℕ → List Message → List Message) (limit : ℕ)
    (m : Message)
    → limit < counter (m ∷ [])
    → trim_messages limit (m ∷ []) ≡ []
    → apply counter trim_messages limit (m ∷ []) ≡ []
unfolding apply
apply_lone_message counter trim limit m over dropped = ground arith
