-- ===== src/Task/Prompt.antt =====
-- internal/task/runner.go: composeSystemPrompt and applyBootstrapHouseRules.
use agent_ops.Prelude.{
  ℕ, zero, suc, ◌+◌, ◌-◌, ◌*◌, ◌/◌, ◌%◌, Str, lit, List, [], ◌∷◌, ◌++◌, ◌&&◌, if◌then◌else◌, is_nil,
  ltb, leb, length, drop, trim_space,
}
use agent_ops.Prelude.Text.{itoa}
use agent_ops.State.Data.{Fact, Mission}
use agent_ops.Task.Filter.{filter_fact_for_prompt}

-- `%0wd` of a number of at most w digits
pad : ℕ → Str → Str
pad w s = zeros (w - length s) ++ s
  where
    zeros : ℕ → Str
    zeros zero = []
    zeros (suc n) = b'0' ∷ zeros n

-- days since 1970-01-01 in the proleptic Gregorian calendar, in eras of 400 years that begin in March
civil_date : ℕ → ℕ × ℕ × ℕ
civil_date days =
    let z = days + 719468 in
    let doe = z % 146097 in
    let yoe = (doe + doe / 36524 - doe / 1460 - doe / 146096) / 365 in
    let doy = doe + yoe / 100 - 365 * yoe - yoe / 4 in
    let mp = (5 * doy + 2) / 153 in
    let d = doy + 1 - (153 * mp + 2) / 5 in
    let m = if ltb mp 10 then mp + 3 else mp - 9 in
    let y = yoe + z / 146097 * 400 in (if leb m 2 then y + 1 else y, m, d)

-- `Format("2006-01-02")` of a UnixNano time
unfoldable pub format_date : ℕ → Str
unfolding civil_date pad
format_date ts =
    let (y, m, d) = civil_date (ts / 86_400_000_000_000) in
    pad 4 (itoa y) ++ lit "-" ++ pad 2 (itoa m) ++ lit "-" ++ pad 2 (itoa d)

abbrev pub prompt_facts : ℕ
prompt_facts = 40

unfoldable pub recent_facts : List Fact → List Fact
recent_facts facts =
    if ltb prompt_facts (length facts) then drop (length facts - prompt_facts) facts else facts

unfoldable pub fact_line : Fact → ℕ → Str
fact_line f index =
    lit "- ["
    ++ format_date f.ts
    ++ lit "] ("
    ++ f.source
    ++ lit ") "
    ++ (filter_fact_for_prompt f.fact index).0
    ++ lit "\n"

-- the most recent fact, the last, has index 0
unfoldable pub fact_lines : List Fact → Str
fact_lines [] = []
fact_lines (f ∷ fs) = fact_line f (length fs) ++ fact_lines fs

abbrev pub mission_part : Str → Str
mission_part statement =
    if is_nil statement then [] else lit "== MISSION ==\n" ++ statement ++ lit "\n\n"

abbrev pub facts_part : List Fact → Str
facts_part facts =
    if is_nil facts
    then []
    else lit "== KNOWN FACTS (oldest first) ==\n" ++ fact_lines (recent_facts facts) ++ lit "\n"

unfoldable pub compose_system_prompt : Str → Mission → Str
compose_system_prompt base m =
    if is_nil m.statement && is_nil m.facts
    then base
    else lit "You are agent-ops stewarding one specific instance.\n\n"
      ++ mission_part m.statement
      ++ facts_part m.facts
      ++ lit "== BASE GUIDANCE ==\n"
      ++ base

-- `raw` is the environment's AGENT_OPS_BOOTSTRAP_SYSTEM_RULES, empty if it is not set
unfoldable pub apply_bootstrap_house_rules : Str → Str → Str
apply_bootstrap_house_rules raw system_prompt =
    if is_nil (trim_space raw) then system_prompt else trim_space raw ++ lit "\n\n" ++ system_prompt
