-- ===== src/Task/Samples.antt =====
-- internal/task: a run's surroundings, its specification, its world and a driver, for the tests.
use agent_ops.Prelude.{lit, none, some, [], true}
use agent_ops.State.Data.{fresh}
use agent_ops.State.Tx.{no_faults}
use agent_ops.Task.Runner.{Spec, Driver, Env, World, live}

abbrev pub plain_env : Env
plain_env = record {
  run_id = some (lit "run_1");
  house_rules = [];
  started = 10;
  warned = 11;
  finished = 20;
  reported = 21;
  start_faults = no_faults;
  mission_faults = no_faults;
  log_faults = no_faults;
  finish_faults = no_faults;
  read_faults = no_faults;
  mission_error = [];
  ctx = live;
  cctx = live;
}

abbrev pub probe_spec : Spec
probe_spec = record {
  name = lit "probe";
  trigger = lit "schedule";
  prompt = lit "Check the app.";
  tools = [];
  model = [];
}

abbrev pub idle : World
idle = record {
  tools = [];
  max_tool_calls = 20;
  system_prompt = lit "base";
  reporting = true;
  inflight = [];
  store = fresh 1;
  reports = [];
}

-- a driver that answers at once and leaves the store alone
abbrev pub quick : Driver
quick req s = record {
  result = record {
    final_message = lit "all well";
    tool_calls = 2;
    cost_usd_micro = 90;
    error = [];
  };
  error = none;
  store = s;
}
