-- ===== src/Service/Lifespan.antt =====
-- What the lifespan of platform_sdk/base/mcp_service.py does to the resources.
use ai_platform_sdk.Prelude.{Bool, some, List, [], ◌∷◌, ◌++◌, none, Option, ◌≡◌, true, false, arith}
use ai_platform_sdk.Service.{Resource, McpService, Startup, Shutdown, enter, exit, close}

-- What is there is not the service's own: the state of a service to which resources were only
-- injected.
abbrev pub Injected : McpService → Type 0
Injected s = (s.owns_authorizer ≡ false) × (s.owns_cache ≡ false) × (s.owns_db_pool ≡ false)

restored_authorizer :
    (u : Startup) (d : Shutdown) (s : McpService)
    → s.owns_authorizer ≡ false
    → (enter u s).0 ≡ true
    → (exit d (enter u s).1).0 ≡ true
    → (exit d (enter u s).1).1.authorizer ≡ s.authorizer
unfolding enter exit
restored_authorizer u d s injected entered left = ground arith

restored_cache :
    (u : Startup) (d : Shutdown) (s : McpService)
    → s.owns_cache ≡ false
    → (enter u s).0 ≡ true
    → (exit d (enter u s).1).0 ≡ true
    → (exit d (enter u s).1).1.cache ≡ s.cache
unfolding enter exit
restored_cache u d s injected entered left = ground arith

restored_db_pool :
    (u : Startup) (d : Shutdown) (s : McpService)
    → s.owns_db_pool ≡ false
    → (enter u s).0 ≡ true
    → (exit d (enter u s).1).0 ≡ true
    → (exit d (enter u s).1).1.db_pool ≡ s.db_pool
unfolding enter exit
restored_db_pool u d s injected entered left = ground arith

restored_registry :
    (u : Startup) (d : Shutdown) (s : McpService)
    → (exit d (enter u s).1).0 ≡ true
    → (exit d (enter u s).1).1.registry ≡ false
unfolding enter exit
restored_registry u d s left = ground arith

-- The resources closed when one was created, if it was, to stand in for one that was not injected.
abbrev pub closing : Bool → Option Resource → Option Resource → List Resource → List Resource
closing needed (some injected) created before = before
closing false none created before = before
closing true none none before = before
closing true none (some r) before = close r before

abbrev pub closing_pool : Bool → Option Resource → Option Resource → List Resource → List Resource
closing_pool needed (some injected) created before = before
closing_pool false none created before = before
closing_pool true none none before = before
closing_pool true none (some r) before = before ++ (r ∷ [])

closed_created :
    (u : Startup) (d : Shutdown) (s : McpService)
    → s.owns_authorizer ≡ false
    → s.owns_cache ≡ false
    → s.owns_db_pool ≡ false
    → (enter u s).0 ≡ true
    → (exit d (enter u s).1).0 ≡ true
    → (exit d (enter u s).1).1.closed
      ≡ closing_pool s.requires_database s.db_pool u.pool (
          closing s.enable_tool_cache s.cache u.tool_result_cache
            (closing true s.authorizer (some u.opa_client) s.closed))
unfolding enter exit
closed_created u d s oa oc op entered left = ground arith

-- A lifespan that starts up and shuts down without an exception hands the service back as it was:
-- an injected resource is still there and is not closed, what was created is gone and has been
-- closed once if it can be, in the order authorizer, cache, pool, and the registry is given up.
pub lifespan_restores :
    (u : Startup) (d : Shutdown) (s : McpService)
    → Injected s
    → (enter u s).0 ≡ true
    → (exit d (enter u s).1).0 ≡ true
    → let s' = (exit d (enter u s).1).1 in
      (s'.authorizer ≡ s.authorizer)
      × (s'.cache ≡ s.cache)
      × (s'.db_pool ≡ s.db_pool)
      × (s'.registry ≡ false)
      × (s'.closed
          ≡ closing_pool s.requires_database s.db_pool u.pool (
              closing s.enable_tool_cache s.cache u.tool_result_cache
                (closing true s.authorizer (some u.opa_client) s.closed)))
lifespan_restores u d s (oa, oc, op) entered left = (
  restored_authorizer u d s oa entered left,
  restored_cache u d s oc entered left,
  restored_db_pool u d s op entered left,
  restored_registry u d s left,
  closed_created u d s oa oc op entered left,
)

-- Two connections of one service: where the lifespan creates the authorizer and a second
-- connection enters before the first one leaves, the second one is left without an authorizer.
pub lifespan_overlap :
    (u u' : Startup) (d : Shutdown) (s : McpService)
    → s.authorizer ≡ none
    → (enter u s).0 ≡ true
    → (enter u' (enter u s).1).0 ≡ true
    → (exit d (enter u' (enter u s).1).1).0 ≡ true
    → (exit d (enter u' (enter u s).1).1).1.authorizer ≡ none
unfolding enter exit
lifespan_overlap u u' d s missing first second left = ground arith
