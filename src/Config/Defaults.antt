-- ===== src/Config/Defaults.antt =====
-- internal/config/config.go: applyDefaults and SchedulesEnabled.
use Prim.Native.Nat.{◌^◌}
use agent_ops.Prelude.{
  ℕ, zero, suc, ◌+◌, ◌-◌, ◌*◌, Str, lit, str_eq, trim_space, Option, none, some, List, [], ◌∷◌,
  Bool, true, false, ◌&&◌, if◌then◌else◌, is_nil, ltb, leb, ◌==◌, keep,
}
use agent_ops.Prelude.Int.{ℤ, pos, negsuc, wrap64}
use agent_ops.Config.Data.{Schedule, Config, Environment}

abbrev is_digit : ℕ → Bool
is_digit c = leb b'0' c && leb c b'9'

abbrev digits : Str → ℕ → Option ℕ
digits [] acc = some acc
digits (c ∷ s) acc =
    let rest = digits s (acc * 10 + (c - b'0')) in if is_digit c then rest else none

abbrev in_range : Bool → Option ℕ → Option ℤ
in_range negative none = none
in_range false (some n) = if ltb n (2 ^ 63) then some (pos n) else none
in_range true (some zero) = some (pos 0)
in_range true (some (suc n)) = if ltb n (2 ^ 63) then some (negsuc n) else none

abbrev unsigned : Str → Option ℕ
unsigned [] = none
unsigned (c ∷ s) = digits (c ∷ s) 0

-- strconv.Atoi
unfoldable pub atoi : Str → Option ℤ
atoi [] = none
atoi (c ∷ s) =
    if c == b'-'
    then in_range true (unsigned s)
    else if c == b'+'
    then in_range false (unsigned s)
    else in_range false (unsigned (c ∷ s))

-- `err == nil && n > 0`
abbrev pub positive : Option ℤ → Option ℕ
positive (some (pos (suc n))) = some (suc n)
positive _ = none

abbrev pub or_text : Str → Str → Str
or_text default [] = default
or_text default (c ∷ s) = c ∷ s

abbrev pub or_number : ℤ → ℤ → ℤ
or_number default (pos zero) = default
or_number default n = n

-- a variable of the environment that is not blank takes the place of `old`
abbrev pub overridden : Str → Str → Str
overridden var old = or_text old (trim_space var)

abbrev pub new_bootstrap : Schedule
new_bootstrap = record {
  name = lit "bootstrap";
  cron = lit "@yearly";
  prompt = [];
  tools = lit "shell" ∷ [];
  model = [];
  verify_prompt = [];
  verify_model = [];
  enabled = none;
}

abbrev pub or_new : Option Schedule → Schedule
or_new none = new_bootstrap
or_new (some b) = b

abbrev pub with_prompt : Str → Option Schedule → Option Schedule
with_prompt [] b = b
with_prompt (c ∷ p) b = some (record (or_new b) { prompt = c ∷ p })

abbrev pub with_model : Str → Option Schedule → Option Schedule
with_model [] b = b
with_model (c ∷ m) b = some (record (or_new b) { model = c ∷ m })

abbrev pub max_turns : Str → ℤ → ℤ
max_turns var old = elim (positive (atoi (trim_space var))) [ none ↦ old | some n ↦ pos n ]

-- `time.Duration(n) * time.Millisecond` may wrap around
abbrev pub timeout_ms : Str → ℤ → ℤ
timeout_ms var old = elim (positive (atoi (trim_space var))) [
  | none ↦ old
  | some n ↦ wrap64 (n * 1_000_000)
]

abbrev pub is_health_check : Schedule → Bool
is_health_check c = str_eq c.name (lit "hourly_health_check")

-- the first schedule of that name
unfoldable pub set_health_prompt : Str → List Schedule → List Schedule
set_health_prompt p [] = []
set_health_prompt p (c ∷ cs) =
    let rest = set_health_prompt p cs in
    if is_health_check c then record c { prompt = p } ∷ cs else c ∷ rest

abbrev pub health_prompt : Str → List Schedule → List Schedule
health_prompt p cs = if is_nil p then cs else set_health_prompt p cs

unfoldable pub apply_defaults : Environment → Config → Config
apply_defaults env c = record {
  state_dir = or_text (lit "/var/lib/agent-ops") c.state_dir;
  agent = record c.agent {
    provider = overridden env.provider (or_text (lit "claude") c.agent.provider);
    max_tool_calls_per_task =
        max_turns env.bootstrap_max_turns (or_number (pos 25) c.agent.max_tool_calls_per_task);
    task_timeout =
        timeout_ms env.bootstrap_timeout_ms (or_number (pos 900_000_000_000) c.agent.task_timeout);
  };
  schedules = health_prompt (trim_space env.health_check_prompt) c.schedules;
  bootstrap =
      with_model (trim_space env.bootstrap_model)
        (with_prompt (trim_space env.bootstrap_prompt) c.bootstrap);
  mcp = record {
    listen_addr = or_text (lit ":7842") c.mcp.listen_addr;
    token_env = or_text (lit "AGENT_OPS_TOKEN") c.mcp.token_env;
  };
  mcp_clients = c.mcp_clients;
}

abbrev pub is_on : Option Bool → Bool
is_on none = true
is_on (some b) = b

unfoldable pub schedules_enabled : Config → List Schedule
schedules_enabled c = keep (λ (s : Schedule). is_on s.enabled) c.schedules
