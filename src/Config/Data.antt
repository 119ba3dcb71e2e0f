-- ===== src/Config/Data.antt =====
-- internal/config/config.go: the configuration, after the YAML decoder. An absent text is empty, as in
-- Go; a duration is an int64 of nanoseconds.
use agent_ops.Prelude.{Str, Option, List, Bool}
use agent_ops.Prelude.Int.{ℤ}

pub record Schedule : Type 0 where
  pub name : Str
  pub cron : Str
  pub prompt : Str
  pub tools : List Str
  pub model : Str
  pub verify_prompt : Str
  pub verify_model : Str
  pub enabled : Option Bool

pub record AgentConfig : Type 0 where
  pub provider : Str
  pub model : Str
  pub api_key_env : Str
  pub max_tool_calls_per_task : ℤ
  pub task_timeout : ℤ

pub record McpConfig : Type 0 where
  pub listen_addr : Str
  pub token_env : Str

pub record McpClientConfig : Type 0 where
  pub name : Str
  pub transport : Str
  pub url : Str
  pub command : Str
  pub args : List Str
  pub auth_env : Str
  pub env : List (Str × Str)

-- the reserved sections `cluster`, `telemetry` and `connectors` are not read
pub record Config : Type 0 where
  pub state_dir : Str
  pub agent : AgentConfig
  pub schedules : List Schedule
  pub bootstrap : Option Schedule
  pub mcp : McpConfig
  pub mcp_clients : List McpClientConfig

-- the environment's variables that applyDefaults reads, empty if they are not set
pub record Environment : Type 0 where
  pub provider : Str
  pub bootstrap_prompt : Str
  pub bootstrap_model : Str
  pub bootstrap_max_turns : Str
  pub bootstrap_timeout_ms : Str
  pub health_check_prompt : Str
