-- ===== src/AgentApp.antt =====
-- `BaseAgentApp` of platform_sdk/fastapi_app/base.py: the bridges to other services and the
-- identity of the service. A bridge is its address, the identity it carries and
-- whether it is connected.
pub mod Bridges
pub mod Origins
pub mod Lifespan
pub mod Creation
use Prim.Native.Char.{code}
use ai_platform_sdk.Prelude.{
  ℕ, suc, ◌+◌, ◌-◌, String, ◌<>◌, Bool, true, false, not, ◌&&◌, Option, none, some, List, [], ◌∷◌,
  ◌++◌, keep, ltb, leb, nat_eq, ◌==◌, strip, cons_head, if◌then◌else◌,
}
use ai_platform_sdk.Prelude.Dict.{Dict, lookup, insert}
use ai_platform_sdk.Auth.{AgentContext, post_init}
use ai_platform_sdk.Registry.{
  RegistryClient, RegistryEntry, Answer, Found, found, raises, healthy, find,
}
use ai_platform_sdk.Application.{rstrip_slashes}

-- `service_agent_context`
unfoldable pub service_agent_context : String → AgentContext
unfolding post_init
service_agent_context service_name = post_init (record {
  rm_id = service_name;
  rm_name = service_name;
  role = "readonly";
  team_id = "platform";
  assigned_account_ids = [];
  compliance_clearance = "standard" ∷ [];
  user_email = "";
  user_role = "";
})

pub record Bridge : Type 0 where
  pub url : String
  pub agent_context : AgentContext
  pub is_connected : Bool

abbrev pub str_of : Option String → String
str_of none = "None"
str_of (some url) = url

-- `str(entry.url).rstrip("/") + "/sse"`
unfoldable pub bridge_url : RegistryEntry → String
unfolding rstrip_slashes
bridge_url entry = rstrip_slashes (str_of entry.url) <> "/sse"

-- The clock and the answer that one lookup meets.
pub record Visit : Type 0 where
  pub before : ℕ
  pub after : ℕ
  pub answer : Answer

-- `self.registry.lookup`: without a registry it is an `AttributeError`.
unfoldable pub look_up :
    Visit → String → Option RegistryClient → Option RegistryEntry × Option RegistryClient
unfolding find
look_up v name none = (none, none)
look_up v name (some r) =
    let (o, r') = find v.before v.after v.answer name r in
    (elim o [ found entry ↦ some entry | raises e ↦ none ], some r')

unfoldable pub add_bridge : AgentContext → String → Option RegistryEntry → Dict Bridge → Dict Bridge
unfolding bridge_url healthy
add_bridge ctx name none bridges = bridges
add_bridge ctx name (some entry) bridges =
    if healthy entry
    then insert name (record { url = bridge_url entry; agent_context = ctx; is_connected = false })
        bridges
    else bridges

-- The loop over `mcp_dependencies`, its lookups numbered from `n`.
unfoldable pub discover :
    (ℕ → Visit)
    → AgentContext
    → ℕ
    → List String
    → Option RegistryClient
    → Dict Bridge
    → Dict Bridge × Option RegistryClient
unfolding look_up add_bridge
discover visit ctx n [] r bridges = (bridges, r)
discover visit ctx n (name ∷ names) r bridges =
    let (o, r') = look_up (visit n) name r in
    discover visit ctx (suc n) names r' (add_bridge ctx name o bridges)

-- The code points of `name.upper().replace("-", "_")` for an ASCII name.
abbrev upper_code : ℕ → ℕ
upper_code n = if leb b'a' n && leb n b'z' then n - 32 else if nat_eq n b'-' then b'_' else n

unfoldable pub env_var : String → List ℕ
env_var String.[] = b'_' ∷ b'U' ∷ b'R' ∷ b'L' ∷ []
env_var (String.◌∷◌ c s) = upper_code (code c) ∷ env_var s

-- `_resolve_mcp_url`
abbrev pub resolve_mcp_url : (List ℕ → Option String) → String → String → String
resolve_mcp_url getenv name default = elim (getenv (env_var name)) [
  | none ↦ default
  | some url ↦ url
]

-- The bridges of the deprecated `mcp_servers`.
unfoldable pub legacy_bridges : (List ℕ → Option String) → AgentContext → Dict String → Dict Bridge
unfolding env_var
legacy_bridges getenv ctx [] = []
legacy_bridges getenv ctx ((name, default) ∷ servers) =
    (
      name,
      record {
        url = resolve_mcp_url getenv name default;
        agent_context = ctx;
        is_connected = false;
      },
    )
    ∷ legacy_bridges getenv ctx servers

-- `_connect_all`: what `connect` raises is dropped; whether a bridge is connected afterwards is
-- the argument.
unfoldable pub connect_all : (String → Bool) → Dict Bridge → Dict Bridge
connect_all connects [] = []
connect_all connects ((name, b) ∷ bridges) =
    (name, record b { is_connected = connects name }) ∷ connect_all connects bridges

pub record Surroundings : Type 0 where
  pub visit : ℕ → Visit
  pub getenv : List ℕ → Option String
  pub connects : String → Bool

-- `_connect_bridges`
unfoldable pub connect_bridges :
    Surroundings
    → AgentContext
    → List String
    → Dict String
    → Option RegistryClient
    → Dict Bridge × Option RegistryClient
unfolding discover legacy_bridges connect_all
connect_bridges w ctx [] servers r =
    (connect_all w.connects (legacy_bridges w.getenv ctx servers), r)
connect_bridges w ctx (name ∷ names) servers r =
    let (bridges, r') = discover w.visit ctx 0 (name ∷ names) r [] in
    (connect_all w.connects bridges, r')
