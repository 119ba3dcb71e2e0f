-- ===== src/State/Mission.antt =====
-- internal/state/mission.go: the mission record and its bounded list of facts.
use agent_ops.Prelude.{
  ℕ, ◌-◌, Str, lit, trim_space, Result, ok, err, List, [], ◌∷◌, ◌++◌, if◌then◌else◌, is_nil, ltb,
  length, drop,
}
use agent_ops.State.Data.{
  Fact, Mission, Store, statement_set, fact_added, StateError, text_required, database,
}
use agent_ops.State.Tx.{Faults, Tx, ◌>>=◌, ◌>>◌, query, exec, pure, transaction, insert_event}

abbrev pub max_facts : ℕ
max_facts = 100

unfoldable pub get_mission : Faults → Store → Result StateError Mission
get_mission f s = if f.read then err database else ok s.mission

abbrev pub write_statement : Str → ℕ → Store → Store
write_statement statement now s = record s {
  tables = record s.tables {
    mission = record s.mission { statement = statement; updated_at = now };
  };
}

abbrev pub statement_tx : Faults → Str → ℕ → Tx (Unit {0})
statement_tx f statement now =
    exec f.write (write_statement statement now)
    >> exec f.event (insert_event now (lit "mission.statement_set") (statement_set statement))

unfoldable pub set_statement : Faults → ℕ → Str → Store → Result StateError (Unit {0}) × Store
set_statement f now statement s = transaction f (statement_tx f statement now) s

-- the new list: at most `max_facts` facts, the newest ones
unfoldable pub bound_facts : List Fact → List Fact
bound_facts facts =
    if ltb max_facts (length facts) then drop (length facts - max_facts) facts else facts

abbrev pub write_facts : List Fact → ℕ → Store → Store
write_facts facts now s = record s {
  tables = record s.tables { mission = record s.mission { facts = facts; updated_at = now } };
}

abbrev pub new_fact : ℕ → Str → Str → Fact
new_fact now source text = record { ts = now; source = source; fact = text }

abbrev pub or_auto : Str → Str
or_auto source = if is_nil source then lit "auto" else source

abbrev pub fact_tx : Faults → ℕ → Str → Str → Tx (List Fact)
fact_tx f now source text =
    query f.read (λ s. bound_facts (s.mission.facts ++ new_fact now source text ∷ [])) >>= λ facts.
    exec f.write (write_facts facts now)
    >> exec f.event (insert_event now (lit "mission.fact_added") (fact_added source text))
    >> pure facts

unfoldable pub add_fact : Faults → ℕ → Str → Str → Store → Result StateError (List Fact) × Store
add_fact f now source text s =
    if is_nil (trim_space text)
    then (err text_required, s)
    else transaction f (fact_tx f now (or_auto source) (trim_space text)) s
