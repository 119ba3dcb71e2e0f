-- ===== src/State/Data.antt =====
-- internal/state/state.go and mission.go: rows, records and tables. Times are UnixNano counts; the
-- zero time.Time is `none`. A column that holds JSON holds here the value that the JSON spells.
use agent_ops.Prelude.{ℕ, List, [], ◌∷◌, Option, some, Bool, Str, lit, is_nil, if◌then◌else◌}
use agent_ops.State.Json.{
  Fields, Payload, object, spelled, all_spelled, json_number, json_bool, json_time,
}

-- the string type RunStatus: its constants, and any other text
pub data RunStatus : Type 0 where
  running completed failed canceled timeout : RunStatus
  other : Str → RunStatus

pub record Task : Type 0 where
  pub name : Str
  pub cron : Str
  pub prompt : Str
  pub tools : List Str
  pub enabled : Bool
  pub updated_at : ℕ

pub record TaskRun : Type 0 where
  pub id : Str
  pub task_name : Str
  pub trigger : Str
  pub started_at : Option ℕ
  pub ended_at : Option ℕ
  pub status : RunStatus
  pub summary : Str
  pub tool_calls : ℕ
  pub cost_usd_micro : ℕ
  pub error : Str

-- a row of task_runs: the columns that may be NULL are options
pub record RunRow : Type 0 where
  pub id : Str
  pub task_name : Str
  pub trigger : Str
  pub started_at : ℕ
  pub ended_at : Option ℕ
  pub status : RunStatus
  pub summary : Option Str
  pub tool_calls : ℕ
  pub cost_usd_micro : ℕ
  pub error : Option Str

pub record RunLog : Type 0 where
  pub run_id : Str
  pub seq : ℕ
  pub ts : ℕ
  pub level : Str
  pub message : Str

pub record Fact : Type 0 where
  pub ts : ℕ
  pub source : Str
  pub fact : Str

pub record Mission : Type 0 where
  pub statement : Str
  pub facts : List Fact
  pub updated_at : ℕ

unfoldable pub status_text : RunStatus → Str
status_text running = lit "running"
status_text completed = lit "completed"
status_text failed = lit "failed"
status_text canceled = lit "canceled"
status_text timeout = lit "timeout"
status_text (other s) = s

abbrev pub omit_empty : Str → Str → Fields → Fields
omit_empty key s rest = if is_nil s then rest else (key, spelled s) ∷ rest

-- what mustJSON spells: the keys of a struct in their order, those of a map sorted
unfoldable pub task_upserted : Task → Payload
task_upserted t = object (
    (lit "name", spelled t.name)
    ∷ (lit "cron", spelled t.cron)
    ∷ (lit "prompt", spelled t.prompt)
    ∷ (lit "tools", all_spelled t.tools)
    ∷ (lit "enabled", json_bool t.enabled)
    ∷ (lit "updated_at", json_time (some t.updated_at))
    ∷ [])

unfoldable pub run_started : TaskRun → Payload
unfolding status_text
run_started r = object (
    (lit "id", spelled r.id)
    ∷ (lit "task_name", spelled r.task_name)
    ∷ (lit "trigger", spelled r.trigger)
    ∷ (lit "started_at", json_time r.started_at)
    ∷ (lit "ended_at", json_time r.ended_at)
    ∷ (lit "status", spelled (status_text r.status))
    ∷ omit_empty (lit "summary") r.summary (
        (lit "tool_calls", json_number r.tool_calls)
        ∷ (lit "cost_usd_micro", json_number r.cost_usd_micro)
        ∷ omit_empty (lit "error") r.error []))

unfoldable pub run_finished : Str → RunStatus → Str → Str → ℕ → Payload
unfolding status_text
run_finished id status summary error calls = object (
    (lit "error", spelled error)
    ∷ (lit "id", spelled id)
    ∷ (lit "status", spelled (status_text status))
    ∷ (lit "summary", spelled summary)
    ∷ (lit "tool_calls", json_number calls)
    ∷ [])

unfoldable pub statement_set : Str → Payload
statement_set statement = object ((lit "statement", spelled statement) ∷ [])

unfoldable pub fact_added : Str → Str → Payload
fact_added source text = object ((lit "fact", spelled text) ∷ (lit "source", spelled source) ∷ [])

pub record Event : Type 0 where
  pub seq : ℕ
  pub ts : ℕ
  pub typ : Str
  pub payload : Payload

-- the domain tables: instance_mission has one row
pub record Tables : Type 0 where
  pub tasks : List Task
  pub runs : List RunRow
  pub mission : Mission

-- `last_seq` is the AUTOINCREMENT counter of events, whose rows stand in the order of insertion
pub record Store : Type 0 where
  pub tables : Tables
  pub open tables use *
  pub events : List Event
  pub last_seq : ℕ
  pub logs : List RunLog

pub data StateError : Type 0 where
  type_required name_required id_required text_required : StateError
  marshal not_terminal not_running no_rows constraint database : StateError

-- what migrate and migrateMission leave behind on the first Open, at the time `now`
unfoldable pub fresh : ℕ → Store
fresh now = record {
  tables = record {
    tasks = [];
    runs = [];
    mission = record { statement = []; facts = []; updated_at = now };
  };
  events = [];
  last_seq = 0;
  logs = [];
}
