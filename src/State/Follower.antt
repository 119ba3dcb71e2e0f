-- ===== src/State/Follower.antt =====
-- A follower of the event log: what it makes of an event, by its type and the fields of its payload.
use agent_ops.Prelude.{
  ℕ, Str, lit, str_eq, trim_space, ◌||◌, Option, none, some, [], ◌∷◌, ◌++◌, ◌≡◌, refl, map, Bool,
  true, false, arith, if◌then◌else◌,
}
use agent_ops.State.Json.{
  Payload, raw, object, Fields, field, json_text, valid_utf8, rune_rest, as_text, as_texts, as_bool,
  as_number, as_time,
}
use agent_ops.State.Data.{
  Task, TaskRun, RunStatus, running, completed, failed, canceled, timeout, other, status_text,
  Tables, Event, task_upserted, run_started, run_finished, statement_set, fact_added,
}
use agent_ops.State.Tasks.{put_task}
use agent_ops.State.Runs.{new_row, close_run, is_terminal}
use agent_ops.State.Mission.{bound_facts, new_fact, or_auto}
use agent_ops.State.History.{Op, append, upsert, start, finish, log, state_mission, learn, History}

abbrev pub fields_of : Payload → Fields
fields_of (raw p) = []
fields_of (object fs) = fs

abbrev pub text_at : Str → Fields → Str
text_at key fs = as_text (field key fs)

abbrev pub since_1970 : Option ℕ → ℕ
since_1970 none = 0
since_1970 (some ts) = ts

abbrev pub read_task : Fields → Task
read_task fs = record {
  name = text_at (lit "name") fs;
  cron = text_at (lit "cron") fs;
  prompt = text_at (lit "prompt") fs;
  tools = as_texts (field (lit "tools") fs);
  enabled = as_bool (field (lit "enabled") fs);
  updated_at = since_1970 (as_time (field (lit "updated_at") fs));
}

unfoldable pub read_status : Str → RunStatus
read_status s =
    if str_eq s (lit "completed")
    then completed
    else if str_eq s (lit "failed")
    then failed
    else if str_eq s (lit "canceled")
    then canceled
    else if str_eq s (lit "timeout")
    then timeout
    else if str_eq s (lit "running")
    then running
    else other s

-- what a follower does with one event, by its type
unfoldable pub by_type : Tables → ℕ → Str → Fields → Tables
unfolding read_status
by_type t ts typ fs =
    if str_eq typ (lit "task.upserted")
    then record t { tasks = put_task (read_task fs) t.tasks }
    else if str_eq typ (lit "run.started")
    then record t {
      runs =
          t.runs
          ++ new_row (text_at (lit "id") fs) (text_at (lit "task_name") fs)
              (text_at (lit "trigger") fs) ts
            ∷ [];
    }
    else if str_eq typ (lit "run.finished")
    then record t {
      runs =
          close_run ts (text_at (lit "id") fs) (read_status (text_at (lit "status") fs))
            (text_at (lit "summary") fs) (text_at (lit "error") fs)
            (as_number (field (lit "tool_calls") fs)) t.runs;
    }
    else if str_eq typ (lit "mission.statement_set")
    then record t {
      mission = record t.mission { statement = text_at (lit "statement") fs; updated_at = ts };
    }
    else if str_eq typ (lit "mission.fact_added")
    then record t {
      mission = record t.mission {
        facts = bound_facts (
            t.mission.facts
            ++ new_fact ts (text_at (lit "source") fs) (text_at (lit "fact") fs) ∷ []);
        updated_at = ts;
      };
    }
    else t

abbrev pub apply_event : Tables → Event → Tables
apply_event t e = by_type t e.ts e.typ (fields_of e.payload)

-- a type that the store gives to the events of its own operations
unfoldable pub is_own_type : Str → Bool
is_own_type typ =
    str_eq typ (lit "task.upserted")
    || str_eq typ (lit "run.started")
    || str_eq typ (lit "run.finished")
    || str_eq typ (lit "mission.statement_set")
    || str_eq typ (lit "mission.fact_added")

-- valid UTF-8, which json.Marshal writes as it is
abbrev pub IsText : Str → Type 0
IsText s = json_text s ≡ s

-- the texts are valid, and a caller of Append takes none of the store's own types
abbrev pub IsSpelled : Op → Type 0
IsSpelled (append typ p) = is_own_type typ ≡ false
IsSpelled (upsert t) =
    IsText t.name × IsText t.cron × IsText t.prompt × (map (λ s. json_text s) t.tools ≡ t.tools)
IsSpelled (start r) = IsText r.id × IsText r.task_name × IsText r.trigger
IsSpelled (finish id status summary error calls) = IsText id × IsText summary × IsText error
IsSpelled (log id seq level message) = Unit
IsSpelled (state_mission statement) = IsText statement
IsSpelled (learn source text) = IsText (or_auto source) × IsText (trim_space text)

abbrev pub AllSpelled : History → Type 0
AllSpelled [] = Unit
AllSpelled ((f, now, op) ∷ h) = IsSpelled op × AllSpelled h

pub by_type-upsert :
    (t : Tables) (ts at : ℕ) (x : Task)
    → IsSpelled (upsert x)
    → by_type t ts (lit "task.upserted") (fields_of (task_upserted (record x { updated_at = at })))
      ≡ record t { tasks = put_task (record x { updated_at = at }) t.tasks }
unfolding by_type task_upserted field str_eq
by_type-upsert t ts at x (a, b, c, d) = rw (a, b, c, d) refl

pub by_type-start :
    (t : Tables) (ts : ℕ) (r : TaskRun)
    → IsSpelled (start r)
    → by_type t ts (lit "run.started") (fields_of (run_started r))
      ≡ record t { runs = t.runs ++ new_row r.id r.task_name r.trigger ts ∷ [] }
unfolding by_type run_started field str_eq
by_type-start t ts r (a, b, c) = rw (a, b, c) refl

read_status-text :
    (st : RunStatus) → is_terminal st ≡ true → read_status (json_text (status_text st)) ≡ st
unfolding read_status status_text valid_utf8 rune_rest str_eq
read_status-text running h = cc h
read_status-text completed h = refl
read_status-text failed h = refl
read_status-text canceled h = refl
read_status-text timeout h = refl
read_status-text (other s) h = cc h

pub by_type-finish :
    (t : Tables) (ts : ℕ) (id : Str) (st : RunStatus) (summary error : Str) (calls : ℕ)
    → IsSpelled (finish id st summary error calls)
    → is_terminal st ≡ true
    → by_type t ts (lit "run.finished") (fields_of (run_finished id st summary error calls))
      ≡ record t { runs = close_run ts id st summary error calls t.runs }
unfolding by_type run_finished field str_eq
by_type-finish t ts id st summary error calls (a, b, c) h = rw (a, b, c, read_status-text st h) refl

pub by_type-learn :
    (t : Tables) (ts : ℕ) (source text : Str)
    → IsText source
    → IsText text
    → by_type t ts (lit "mission.fact_added") (fields_of (fact_added source text)) ≡ record t {
      mission = record t.mission {
        facts = bound_facts (t.mission.facts ++ new_fact ts source text ∷ []);
        updated_at = ts;
      };
    }
unfolding by_type fact_added field str_eq
by_type-learn t ts source text a b = rw (a, b) refl

pub by_type-state :
    (t : Tables) (ts : ℕ) (statement : Str)
    → IsText statement
    → by_type t ts (lit "mission.statement_set") (fields_of (statement_set statement))
      ≡ record t { mission = record t.mission { statement = statement; updated_at = ts } }
unfolding by_type statement_set field str_eq
by_type-state t ts statement a = rw a refl

pub by_type-other :
    (t : Tables) (ts : ℕ) (typ : Str) (fs : Fields)
    → is_own_type typ ≡ false
    → by_type t ts typ fs ≡ t
unfolding by_type is_own_type
by_type-other t ts typ fs h = ground (arith, h)
