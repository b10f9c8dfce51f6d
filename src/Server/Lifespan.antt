-- ===== src/Server/Lifespan.antt =====
-- What the lifespan of platform_sdk/mcp_server_base.py opens and closes.
use mathlib.Core.List.{append_assoc, append-nil}
use ai_platform_sdk.Prelude.{
  String, ◌≡◌, refl, Bool, true, false, none, some, List, [], ◌∷◌, ◌++◌, arith, Bool-cases, inl,
  inr,
}
use ai_platform_sdk.Server.{
  McpConfig, BaseResources, McpServer, Startup, Shutdown, raises, listed, created_cache,
  teardown_order, close_all, teardown, create_base_resources, start, enter, exit, lifespan,
}

abbrev pub creation_order : BaseResources → List String
creation_order r = (r.opa ∷ []) ++ listed r.cache ++ listed r.db_pool

-- The same resources as they are given up.
abbrev pub closing_order : BaseResources → List String
closing_order r = listed r.db_pool ++ (r.opa ∷ []) ++ listed r.cache

-- A closing that is not interrupted.
close_all_lem :
    (closes : String → Bool)
    → ((r : String) → closes r ≡ true)
    → (rs : List String) (s : McpServer)
    → close_all closes rs s ≡ (true, record s { closed = s.closed ++ rs })
unfolding close_all
close_all_lem closes h [] s = rw append-nil refl
close_all_lem closes h (r ∷ rs) s =
    rw (h r, close_all_lem closes h rs (record s { closed = s.closed ++ (r ∷ []) }), append_assoc)
      refl

teardown_lem :
    (d : Shutdown) (r : BaseResources) (s : McpServer)
    → ((x : String) → d.closes x ≡ true)
    → teardown d r s ≡ (true, record s { closed = s.closed ++ teardown_order r })
unfolding teardown
teardown_lem d r s h = close_all_lem d.closes h (teardown_order r) s

torn_down :
    (d : Shutdown) (r : BaseResources) (s : McpServer) (o c : List String)
    → ((x : String) → d.closes x ≡ true)
    → s.opened ≡ o
    → s.closed ≡ c
    → let s' = (teardown d r s).1 in (s'.opened ≡ o) × (s'.closed ≡ c ++ teardown_order r)
torn_down d r s o c h ho hc = rw (teardown_lem d r s h, ho, hc) (refl, refl)

opened_lem :
    (u : Startup) (s : McpServer) (r : BaseResources)
    → (create_base_resources u s).0 ≡ some r
    → (create_base_resources u s).1.opened ≡ s.opened ++ creation_order r
unfolding create_base_resources
opened_lem u s r h =
    ground (arith, append_assoc s.opened ((u.opa_client ∷ []) ++ listed r.cache) (listed r.db_pool))

closed_lem : (u : Startup) (s : McpServer) → (create_base_resources u s).1.closed ≡ s.closed
unfolding create_base_resources
closed_lem u s = ground arith

-- Once its resources are there, the lifespan closes exactly what it has opened, if the calls that
-- close return: first the pool, then the authorizer, then the cache. This holds whether or not the
-- hooks raise, and also when `on_startup` ends the startup.
pub lifespan_closes :
    (u : Startup) (d : Shutdown) (s : McpServer) (r : BaseResources)
    → ((x : String) → d.closes x ≡ true)
    → (create_base_resources u s).0 ≡ some r
    → let s' = (lifespan u d s).1 in
      (s'.opened ≡ s.opened ++ creation_order r) × (s'.closed ≡ s.closed ++ closing_order r)
unfolding lifespan enter start exit
lifespan_closes u d s r closes created =
    let s' = (create_base_resources u s).1 in
    let o = opened_lem u s r created in
    let c = closed_lem u s in
    rw created (elim (Bool-cases u.starts) [
      | inl h ↦ elim (Bool-cases d.shuts_down) [
        | inl h' ↦
            rw (h, h')
              (torn_down d r (record s' { resources = none }) (s.opened ++ creation_order r)
                s.closed closes o c)
        | inr h' ↦
            rw (h, h')
              (torn_down d r (record s' { resources = some r }) (s.opened ++ creation_order r)
                s.closed closes o c)
      ]
      | inr h ↦ rw h (
          torn_down d r (record s' { resources = some r }) (s.opened ++ creation_order r) s.closed
            closes o c)
    ])

-- Where the pool cannot be created, the authorizer and the cache stay open.
pub lifespan_leaks :
    (u : Startup) (d : Shutdown) (s : McpServer) (c : McpConfig)
    → s.requires_database ≡ true
    → s.assert_secrets ≡ false
    → u.config ≡ some c
    → u.pool ≡ raises
    → let (ended, s') = lifespan u d s in
      (ended ≡ false)
      × (s'.opened ≡ s.opened ++ ((u.opa_client ∷ []) ++ listed (created_cache u c)))
      × (s'.closed ≡ s.closed)
unfolding lifespan enter start exit create_base_resources
lifespan_leaks u d s c database secrets config pool = ground arith
