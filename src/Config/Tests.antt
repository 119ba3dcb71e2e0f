-- ===== src/Config/Tests.antt =====
-- A small configuration, its defaults and its validation.
use agent_ops.Prelude.{lit, str_eq, trim_space, none, some, [], ◌∷◌, ◌≡◌, refl, not, is_nil}
use agent_ops.Prelude.Int.{pos, negsuc}
use agent_ops.Config.Data.{Schedule, Config, Environment}
use agent_ops.Config.Defaults.{apply_defaults, atoi}
use agent_ops.Config.Validate.{
  parse, validate, validate_agent, validate_schedules, validate_clients,
}
use agent_ops.Config.Valid.{IsValid, parse-IsValid}

abbrev quiet : Environment
quiet = record {
  provider = [];
  bootstrap_prompt = [];
  bootstrap_model = [];
  bootstrap_max_turns = lit " 40 ";
  bootstrap_timeout_ms = lit "never";
  health_check_prompt = [];
}

abbrev check_app : Schedule
check_app = record {
  name = lit "check";
  cron = lit "@hourly";
  prompt = lit "Check the app.";
  tools = [];
  model = [];
  verify_prompt = [];
  verify_model = [];
  enabled = none;
}

abbrev small : Config
small = record {
  state_dir = [];
  agent = record {
    provider = lit "claude-cli";
    model = [];
    api_key_env = [];
    max_tool_calls_per_task = pos 0;
    task_timeout = pos 0;
  };
  schedules = check_app ∷ [];
  bootstrap = none;
  mcp = record { listen_addr = []; token_env = [] };
  mcp_clients =
      record {
        name = lit "github";
        transport = lit "stdio";
        url = [];
        command = lit "mcp-github";
        args = [];
        auth_env = [];
        env = [];
      }
      ∷ [];
}

forty : atoi (lit "40") ≡ some (pos 40)
unfolding atoi
forty = refl

minus_one : atoi (lit "-1") ≡ some (negsuc 0)
unfolding atoi
minus_one = refl

too_large : atoi (lit "9223372036854775808") ≡ none
unfolding atoi
too_large = refl

turns_from_env : (apply_defaults quiet small).agent.max_tool_calls_per_task ≡ pos 40
unfolding apply_defaults atoi trim_space
turns_from_env = refl

parse-IsValid_example : IsValid (λ s. not (is_nil s)) (apply_defaults quiet small)
unfolding parse validate validate_agent validate_schedules validate_clients apply_defaults atoi
    str_eq trim_space
parse-IsValid_example =
    parse-IsValid (λ s. not (is_nil s)) quiet (some small) (apply_defaults quiet small) refl
