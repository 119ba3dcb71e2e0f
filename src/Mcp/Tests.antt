-- ===== src/Mcp/Tests.antt =====
-- fact_inspect at a mission of two facts.
use agent_ops.Prelude.{ℕ, Str, lit, none, [], ◌∷◌, ◌++◌, ◌≡◌, refl, ok, err, true, false}
use agent_ops.Prelude.Text.{contains, has_prefix, split}
use agent_ops.Task.Filter.{count_hidden, is_noise, is_keep, is_drop, lowered}
use agent_ops.Prelude.Int.{pos}
use agent_ops.State.Data.{Fact, Task, Store, fresh}
use agent_ops.State.Tx.{no_faults}
use agent_ops.State.History.{after_all}
use agent_ops.Task.Samples.{plain_env, idle}
use agent_ops.Task.Runner.{Driver, World}
use agent_ops.Scheduler.Slots.{slots_cron, stopped, stopped-IsCoherent}
use agent_ops.Mcp.Server.{Server, Json, Around, default_enabled}
use agent_ops.Mcp.Post.{Incoming, default_origins}
use agent_ops.Mcp.Effects.{IsHonest, IsOrderly}
use agent_ops.Mcp.Orderly.{serve, serve-IsOrderly}
use agent_ops.Task.Prompt.{recent_facts, fact_lines}
use agent_ops.Mcp.FactInspect.{fact_inspect, index, bad_args, called, fact_inspect-prompt}

abbrev older : Fact
older = record {
  ts = 86_400_000_000_000;
  source = lit "auto";
  fact = lit "npm warn deprecated x\nup";
}

abbrev newer : Fact
newer = record { ts = 172_800_000_000_000; source = lit "user"; fact = lit "restart with systemd" }

abbrev two_facts : Store
two_facts = record (fresh 1) {
  tables = record (fresh 1).tables {
    mission = record { statement = []; facts = older ∷ newer ∷ []; updated_at = 1 };
  };
}

-- the first fact has a hidden line, and `called` numbers it
fact_inspect-prompt_example :
    (n : ℕ) × ((before : Str) × (fact_lines (recent_facts two_facts.mission.facts)
        ≡ before ++ (called n ++ fact_lines (newer ∷ []))))
    × (fact_inspect no_faults (index (pos n)) two_facts ≡ ok older)
unfolding recent_facts count_hidden is_noise is_keep is_drop lowered split contains has_prefix
fact_inspect-prompt_example = fact_inspect-prompt two_facts [] (newer ∷ []) older refl refl

abbrev pub idle_scheduler : World
idle_scheduler = record idle { reporting = false }

abbrev pub server : Server slots_cron
server = record {
  scheduler = stopped;
  world = idle_scheduler;
  token = lit "t0k";
  allowed_origins = default_origins;
}

-- a driver that does nothing
abbrev pub mute : Driver
mute req s = record {
  result = record { final_message = []; tool_calls = 0; cost_usd_micro = 0; error = [] };
  error = none;
  store = s;
}

abbrev pub calm : Around
calm = record {
  faults = no_faults;
  now = 7;
  workflow = [];
  driver = mute;
  run_env = plain_env;
  invoke = λ name input s. (err (lit "no shell here"), s);
}

abbrev pub probe : Task
probe = record {
  name = lit "probe";
  cron = lit "@hourly";
  prompt = lit "Check.";
  tools = [];
  enabled = false;
  updated_at = 0;
}

-- every call sets the task
abbrev pub json : Json
json = record {
  request = λ body. ok (record { version = lit "2.0"; method = lit "tools/call"; params = body });
  call = λ params. ok (record { name = lit "agent_set_task"; arguments = params });
  run_args = λ raw. err raw;
  history_args = λ raw. ([], pos 0);
  log_args = λ raw. err raw;
  name_arg = λ raw. err raw;
  statement = λ raw. err raw;
  fact_args = λ raw. err raw;
  task_args = λ raw. ok probe;
  index_args = λ raw. bad_args;
}

abbrev post : Incoming
post = record {
  method = lit "POST";
  origin = lit "https://zibby.app";
  authorization = lit "Bearer t0k";
  body = ok (lit "{\"name\": \"probe\", \"prompt\": \"Check.\"}");
}

calm-IsHonest : IsHonest slots_cron calm
unfolding after_all
calm-IsHonest = record {
  driver = record { acts = λ req s. []; at = λ req s. refl };
  tools = λ name input s. record { acts = []; at = refl };
}

-- the word is the task's name, and the new task is disabled
still_disabled :
    default_enabled slots_cron
      (lit "{\"name\": \"enabled\", \"prompt\": \"Check.\"}")
      (record probe { name = lit "enabled" })
    ≡ record probe { name = lit "enabled" }
unfolding default_enabled contains has_prefix
still_disabled = refl

-- encoding/json reads this key as `enabled`, and the task is enabled all the same
enabled_anyway :
    default_enabled slots_cron (lit "{\"name\": \"probe\", \"Enabled\": false}") probe
    ≡ record probe { enabled = true }
unfolding default_enabled contains has_prefix
enabled_anyway = refl

serve-IsOrderly_example :
    IsOrderly slots_cron server (serve slots_cron json ((calm, post) ∷ (calm, post) ∷ []) server)
serve-IsOrderly_example =
    serve-IsOrderly slots_cron json ((calm, post) ∷ (calm, post) ∷ []) server
      (calm-IsHonest, (calm-IsHonest, tt)) stopped-IsCoherent
