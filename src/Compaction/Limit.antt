-- ===== src/Compaction/Limit.antt =====
-- When the compaction of platform_sdk/compaction.py keeps to its token limit.
use ai_platform_sdk.Prelude.{
  ℕ, ◌≤◌, ◌<◌, ◌≡◌, refl, ◌∙◌, ◌⊎◌, inl, inr, String, false, Option, List, [], ◌∷◌, ◌++◌, ltb, leb,
  length, get_last?, keep, arith, Bool-cases, le→leb,
}
use ai_platform_sdk.Compaction.{Message, not_system, last_of, make_token_counter, min_guard, apply}
use ai_platform_sdk.Compaction.Budget.{make_token_counter-nil}

-- `max_tokens`: what the trim leaves is within the limit.
abbrev pub TrimsWithin : (List Message → ℕ) → (ℕ → List Message → List Message) → Type 0
TrimsWithin counter trim = (limit : ℕ) (ms : List Message) → counter (trim limit ms) ≤ limit

-- What the guard makes of a conversation.
abbrev pub guarded : List Message → List Message
guarded ms = keep Message.is_system ms ++ last_of (get_last? (keep not_system ms))

module _ (encoding : Option (String → ℕ)) (trim : ℕ → List Message → List Message) (limit : ℕ) where
  apply_fitting :
      (ms : List Message)
      → make_token_counter encoding ms ≤ limit
      → apply (make_token_counter encoding) trim limit ms ≡ ms
  unfolding apply
  apply_fitting [] h = refl
  apply_fitting (m ∷ ms) h = rw (le→leb (make_token_counter encoding (m ∷ ms)) limit h) refl

  -- The result is within the limit and stays as it is.
  abbrev pub Settled : List Message → Type 0
  Settled r =
      (make_token_counter encoding r ≤ limit)
      × (apply (make_token_counter encoding) trim limit r ≡ r)

  settled : (r r' : List Message) → r ≡ r' → make_token_counter encoding r' ≤ limit → Settled r
  settled r r' e h = rw e (h, apply_fitting r' h)

  -- The trim has cut a conversation of two or more messages below two.
  abbrev pub CutShort : List Message → Type 0
  CutShort ms = (length (trim limit ms) < 2) × (2 ≤ length ms)

  abbrev pub Enough : List Message → Type 0
  Enough ms = (2 ≤ length (trim limit ms)) ⊎ (length ms < 2)

  guard_cases :
      (ms : List Message)
      → (Enough ms × (min_guard ms (trim limit ms) ≡ trim limit ms))
        ⊎ (CutShort ms × (min_guard ms (trim limit ms) ≡ guarded ms))
  unfolding min_guard
  guard_cases ms = elim (Bool-cases (ltb (length (trim limit ms)) 2)) [
    | inl few ↦ elim (Bool-cases (leb 2 (length ms))) [
      | inl two ↦ inr ((ground arith, ground arith), rw (few, two) refl)
      | inr one ↦ inl (inr (ground arith), rw (few, one) refl)
    ]
    | inr many ↦ inl (inl (ground arith), rw many refl)
  ]

  apply-over :
      (m : Message) (ms : List Message)
      → leb (make_token_counter encoding (m ∷ ms)) limit ≡ false
      → apply (make_token_counter encoding) trim limit (m ∷ ms)
        ≡ min_guard (m ∷ ms) (trim limit (m ∷ ms))
  unfolding apply
  apply-over m ms h = rw h refl

  -- A conversation within the limit stays as it is. One over the limit becomes what the trim leaves,
  -- which is within the limit and stays as it is in a second compaction; but where the trim has cut
  -- two or more messages below two, it becomes the system messages and the last other message.
  pub apply_limit :
      (ms : List Message)
      → TrimsWithin (make_token_counter encoding) trim
      → let counter = make_token_counter encoding in
        let r = apply counter trim limit ms in
        ((counter ms ≤ limit) × (r ≡ ms))
        ⊎ ((limit < counter ms) × Enough ms × (r ≡ trim limit ms) × Settled r)
        ⊎ ((limit < counter ms) × CutShort ms × (r ≡ guarded ms))
  apply_limit [] within =
      inl (rw (make_token_counter-nil encoding) (omega arith), unfold apply in refl)
  apply_limit (m ∷ ms) within =
      let counter = make_token_counter encoding in
      elim (Bool-cases (leb (counter (m ∷ ms)) limit)) [
        | inl fits ↦ inl (ground arith, apply_fitting (m ∷ ms) (ground arith))
        | inr over ↦ elim (guard_cases (m ∷ ms)) [
          | inl (enough, kept) ↦
              let e = apply-over m ms over ∙ kept in
              inr (
                inl (
                  ground arith,
                  enough,
                  e,
                  settled _ (trim limit (m ∷ ms)) e (within limit (m ∷ ms)),
                ))
          | inr (cut, e) ↦ inr (inr (ground arith, cut, apply-over m ms over ∙ e))
        ]
      ]
