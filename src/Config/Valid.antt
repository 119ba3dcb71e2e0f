-- ===== src/Config/Valid.antt =====
-- What a configuration that Parse lets through satisfies.
use agent_ops.Prelude.{
  Str, lit, str_eq, Option, none, some, Result, ok, err, ok_eq, ◌>>=◌, ◌>>◌, List, [], ◌∷◌, ◌≡◌,
  refl, ap, Bool, true, false, is_nil, is_blank, arith, Bool-cases, ◌⊎◌, inl, inr,
}
use agent_ops.Prelude.Int.{is_positive}
use agent_ops.Config.Data.{Schedule, AgentConfig, McpClientConfig, Config, Environment}
use agent_ops.Config.Defaults.{apply_defaults}
use agent_ops.Config.Validate.{
  has_name, valid_providers, needs_no_key, validate_agent, validate_schedule, validate_schedules,
  validate_bootstrap, with_name, validate_client, validate_clients, validate, parse,
}

pub record IsRunnable (a : AgentConfig) : Type 0 where
  pub known : has_name a.provider valid_providers ≡ true
  pub modelled : str_eq a.provider (lit "claude") ≡ true → is_nil a.model ≡ false
  pub paid : needs_no_key a.provider ≡ false → is_nil a.api_key_env ≡ false
  pub bounded : is_positive a.max_tool_calls_per_task ≡ true

-- a schedule that the scheduler can take
pub record IsComplete (parses : Str → Bool) (s : Schedule) : Type 0 where
  pub named : is_nil s.name ≡ false
  pub timed : is_nil s.cron ≡ false
  pub parsed : parses s.cron ≡ true
  pub prompted : is_blank s.prompt ≡ false

pub record IsReachable (c : McpClientConfig) : Type 0 where
  pub named : is_blank c.name ≡ false
  pub over :
      ((str_eq c.transport (lit "http") ≡ true) × (is_blank c.url ≡ false))
      ⊎ ((str_eq c.transport (lit "stdio") ≡ true) × (is_blank c.command ≡ false))

-- each element passes, and none has the name of one before it or of `seen`
abbrev pub AllNew : {A : Type 0} → (A → Str) → (A → Type 0) → List A → List Str → Type 0
AllNew name P [] seen = Unit
AllNew name P (x ∷ xs) seen =
    P x × (has_name (name x) seen ≡ false) × AllNew name P xs (name x ∷ seen)

abbrev pub IsFirstRun : Option Schedule → Type 0
IsFirstRun none = Unit
IsFirstRun (some b) = (is_nil b.name ≡ false) × (is_blank b.prompt ≡ false)

pub record IsValid (parses : Str → Bool) (c : Config) : Type 0 where
  pub agent : IsRunnable c.agent
  pub schedules : AllNew (λ (s : Schedule). s.name) (IsComplete parses) c.schedules []
  pub bootstrap : IsFirstRun c.bootstrap
  pub clients : AllNew (λ (m : McpClientConfig). m.name) IsReachable c.mcp_clients []

-- both parts of a sequence of checks have passed
pub both_ok :
    {E B : Type 0} (r : Result E (Unit {0})) (k : Result E B) (b : B)
    → (r >> k) ≡ ok b
    → (r ≡ ok tt) × (k ≡ ok b)
both_ok (ok u) k b q = (refl, q)
both_ok (err e) k b q = cc

validate_agent-IsRunnable : (a : AgentConfig) → validate_agent a ≡ ok tt → IsRunnable a
unfolding validate_agent
validate_agent-IsRunnable a q = record {
  known = ground arith;
  modelled = λ p. ground arith;
  paid = λ p. ground arith;
  bounded = ground arith;
}

validate_schedule_ok :
    (parses : Str → Bool) (s : Schedule) (seen : List Str)
    → validate_schedule parses s seen ≡ ok tt
    → IsComplete parses s × (has_name s.name seen ≡ false)
validate_schedule_ok parses s seen q = (
  record {
    named = ground arith;
    timed = ground arith;
    parsed = ground arith;
    prompted = ground arith;
  },
  ground arith,
)

validate_schedules_ok :
    (parses : Str → Bool) (ss : List Schedule) (seen : List Str)
    → validate_schedules parses ss seen ≡ ok tt
    → AllNew (λ (s : Schedule). s.name) (IsComplete parses) ss seen
unfolding validate_schedules
validate_schedules_ok parses [] seen q = tt
validate_schedules_ok parses (s ∷ ss) seen q =
    let (p, r) =
      both_ok (validate_schedule parses s seen) (validate_schedules parses ss (s.name ∷ seen)) tt
        q in
    let (c, n) = validate_schedule_ok parses s seen p in
    (c, n, validate_schedules_ok parses ss (s.name ∷ seen) r)

validate_client_ok :
    (c : McpClientConfig) (seen : List Str)
    → validate_client c seen ≡ ok tt
    → IsReachable c × (has_name c.name seen ≡ false)
validate_client_ok c seen q = (record { named = ground arith; over = ground arith }, ground arith)

validate_clients_ok :
    (cs : List McpClientConfig) (seen : List Str)
    → validate_clients cs seen ≡ ok tt
    → AllNew (λ (m : McpClientConfig). m.name) IsReachable cs seen
unfolding validate_clients
validate_clients_ok [] seen q = tt
validate_clients_ok (c ∷ cs) seen q =
    let (p, r) = both_ok (validate_client c seen) (validate_clients cs (c.name ∷ seen)) tt q in
    let (h, n) = validate_client_ok c seen p in (h, n, validate_clients_ok cs (c.name ∷ seen) r)

with_name_lem :
    (b : Schedule) → (is_nil (with_name b).name ≡ false) × ((with_name b).prompt ≡ b.prompt)
with_name_lem b = ground arith

validate_bootstrap_ok : (b b' : Option Schedule) → validate_bootstrap b ≡ ok b' → IsFirstRun b'
validate_bootstrap_ok none b' q = rw (← ok_eq q) tt
validate_bootstrap_ok (some b) b' q = elim (Bool-cases (is_blank b.prompt)) [
  | inl p ↦ cc (p, q)
  | inr p ↦ let (n, m) = with_name_lem b in rw (← ok_eq (rw p at q)) (n, rw (ap is_blank m) p)
]

-- the end of validate, once the agent and the schedules have passed
pub clients_ok :
    (c c' : Config) (o : Option Schedule)
    → (validate_clients c.mcp_clients [] >> ok (record c { bootstrap = o })) ≡ ok c'
    → (validate_clients c.mcp_clients [] ≡ ok tt) × (record c { bootstrap = o } ≡ c')
clients_ok c c' o q =
    let (p, r) =
      both_ok (validate_clients c.mcp_clients []) (ok (record c { bootstrap = o })) c' q in
    (p, ok_eq r)

pub bind_ok :
    {E A B : Type 0} (r : Result E A) (k : A → Result E B) (b : B)
    → (r >>= k) ≡ ok b
    → (a : A) × (r ≡ ok a) × (k a ≡ ok b)
bind_ok (ok a) k b q = (a, refl, q)
bind_ok (err e) k b q = cc

validate-IsValid :
    (parses : Str → Bool) (c c' : Config) → validate parses c ≡ ok c' → IsValid parses c'
unfolding validate
validate-IsValid parses c c' q =
    let va = validate_agent c.agent in
    let vs = validate_schedules parses c.schedules [] in
    let vb = validate_bootstrap c.bootstrap in
    let (o, first, last) =
      bind_ok (va >> vs >> vb)
        (λ o. validate_clients c.mcp_clients [] >> ok (record c { bootstrap = o })) c' q in
    let (both, run) = both_ok (va >> vs) vb o first in
    let (agent_ok, schedules_ok) = both_ok va vs tt both in
    let (reach, e) = clients_ok c c' o last in
    rw (← e) (record {
      agent = validate_agent-IsRunnable c.agent agent_ok;
      schedules = validate_schedules_ok parses c.schedules [] schedules_ok;
      bootstrap = validate_bootstrap_ok c.bootstrap o run;
      clients = validate_clients_ok c.mcp_clients [] reach;
    })

-- A configuration that Parse returns, whatever the environment: the agent has a known provider, a
-- model and a key where the provider needs them, and a positive bound on tool calls; every schedule
-- has a name of its own, a cron text that the parser accepts and a prompt; a first run has a name and
-- a prompt; every MCP client has a name of its own and what its transport needs.
pub parse-IsValid :
    (parses : Str → Bool) (env : Environment) (decoded : Option Config) (c : Config)
    → parse parses env decoded ≡ ok c
    → IsValid parses c
unfolding parse
parse-IsValid parses env none c q = cc
parse-IsValid parses env (some d) c q = validate-IsValid parses (apply_defaults env d) c q
