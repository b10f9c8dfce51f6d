-- ===== src/Logging/Again.antt =====
-- A second call of `configure_logging` of platform_sdk/logging.py.
use ai_platform_sdk.Prelude.{
  String, ◌≡◌, ◌≢◌, refl, sym, ap, ◌∙◌, Bool, true, Option, none, some, List, [], ◌∷◌, eq_iff,
  arith, All, Bool-cases, inl, inr,
}
use ai_platform_sdk.Prelude.Dict.{Dict, lookup, insert, lookup-insert}
use ai_platform_sdk.Logging.{
  stream, level_or, json_lines, Logging, noisy, quieted, choose_renderer, configure_logging,
}

insert_present : (k v : String) (d : Dict String) → lookup k d ≡ some v → insert k v d ≡ d
unfolding lookup insert
insert_present k v [] h = cc
insert_present k v ((j, w) ∷ d) h = ground (arith, eq_iff k j, insert_present k v d)

quieted_present :
    (names : List String) (d : Dict String)
    → All (λ n. lookup n d ≡ some "WARNING") names
    → quieted names d ≡ d
unfolding quieted
quieted_present [] d h = refl
quieted_present (n ∷ names) d (h, hs) =
    rw (insert_present n "WARNING" d h) (quieted_present names d hs)

quieted_again : (d : Dict String) → quieted noisy (quieted noisy d) ≡ quieted noisy d
quieted_again d = quieted_present noisy (quieted noisy d) (
    unfold quieted in
    (simp lookup-insert, (simp lookup-insert, (simp lookup-insert, (simp lookup-insert, tt)))))

levels_again :
    (upper : String → String) (is_level : String → Bool) (getenv : String → Option String)
    (level : Option String) (s : Logging)
    → quieted noisy (configure_logging upper is_level getenv level s).1.levels
      ≡ quieted noisy s.levels
unfolding configure_logging
levels_again upper is_level getenv level s =
    elim (Bool-cases (is_level (upper (level_or level (getenv "LOG_LEVEL"))))) [
      | inl h ↦ rw h (quieted_again s.levels)
      | inr h ↦ rw h refl
    ]

configured :
    (upper : String → String) (is_level : String → Bool) (getenv : String → Option String)
    (level : Option String) (s : Logging)
    → is_level (upper (level_or level (getenv "LOG_LEVEL"))) ≡ true
    → configure_logging upper is_level getenv level s ≡ (
      true,
      record {
        handlers = stream (choose_renderer getenv) ∷ [];
        level = upper (level_or level (getenv "LOG_LEVEL"));
        levels = quieted noisy s.levels;
      },
    )
unfolding configure_logging
configured upper is_level getenv level s named = rw named refl

-- The logging is what the last call that names a level says, whatever the calls before it were,
-- also if they raised: there is one handler, and the noisy loggers have their level.
pub configure_logging_again :
    (upper : String → String) (is_level : String → Bool) (getenv getenv' : String → Option String)
    (level level' : Option String) (s : Logging)
    → is_level (upper (level_or level' (getenv' "LOG_LEVEL"))) ≡ true
    → configure_logging upper is_level getenv' level'
        (configure_logging upper is_level getenv level s).1
      ≡ configure_logging upper is_level getenv' level' s
configure_logging_again upper is_level getenv getenv' level level' s named =
    let s' = (configure_logging upper is_level getenv level s).1 in
    configured upper is_level getenv' level' s' named
    ∙ ap
        (λ levels. (
          true,
          record {
            handlers = stream (choose_renderer getenv') ∷ [];
            level = upper (level_or level' (getenv' "LOG_LEVEL"));
            levels = levels;
          },
        ))
        (levels_again upper is_level getenv level s)
    ∙ sym (configured upper is_level getenv' level' s named)

-- Where `CI` is set, to whatever, a pipeline gets JSON lines.
pub choose_renderer_ci :
    (getenv : String → Option String) → getenv "CI" ≢ none → choose_renderer getenv ≡ json_lines
unfolding choose_renderer
choose_renderer_ci getenv h = ground arith
