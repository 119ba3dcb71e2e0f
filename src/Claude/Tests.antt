-- ===== src/Claude/Tests.antt =====
-- A run of the Messages API driver with one use of a tool, and its theorems there.
use agent_ops.Prelude.{
  Str, lit, str_eq, str_eq_refl, Bool-cases, inl, inr, some, ok, err, [], ◌∷◌, ◌++◌, ◌≡◌, refl,
  true, false, length, if◌then◌else◌, ◌==◌,
}
use agent_ops.Prelude.Assoc.{get}
use agent_ops.Tool.Registry.{Tool, get_tool}
use agent_ops.State.Data.{Store, fresh}
use agent_ops.State.Tx.{no_faults}
use agent_ops.State.History.{after_all}
use agent_ops.Task.Runner.{Request}
use agent_ops.Claude.Wire.{text, tool_use, ClaudeRequest, responded}
use agent_ops.Claude.Loop.{
  ClaudeDriver, Api, Invocation, done, failed, Surroundings, converse, loop, on_reply, respond,
  tool_turn, run_tools, run_tool, run_found, after_invoke, log_line,
}
use agent_ops.Claude.Follows.{ToolsFollow}
use agent_ops.Claude.Protocol.{converse_asks, converse_invokes}
use agent_ops.Claude.Ends.{EndsWithin, converse-EndsWithin}

abbrev uptime : Tool
uptime = record { name = lit "uptime"; description = lit "how long it runs"; schema = lit "{}" }

abbrev sonnet : ClaudeDriver
sonnet = record { api_key = lit "k"; model = lit "sonnet"; max_output_tokens = 0 }

-- asked for the first time it uses two tools, then it ends
abbrev stub : Api
stub q =
    if length q.messages == 1
    then responded 200 (lit "200 OK") [] (
        ok (record {
          stop_reason = lit "tool_use";
          content =
              text (lit "Let me see.")
              ∷ tool_use (lit "u1") (lit "uptime") (lit "{}")
              ∷ tool_use (lit "u2") (lit "reboot") (lit "{}")
              ∷ [];
        }))
    else responded 200 (lit "200 OK") []
        (ok (record { stop_reason = lit "end_turn"; content = text (lit "All well.") ∷ [] }))

abbrev host : Surroundings
host = record {
  invoke = λ name input s.
      (done (record { output = lit "3 days"; truncated = false; sensitive = false }), s);
  log_call = λ seq. (no_faults, 5);
  quote = λ s. lit "\"" ++ s ++ lit "\"";
}

-- the same, but for a tool that is not registered
abbrev other_invoke : Str → Str → Store → Invocation × Store
other_invoke name input s =
    if str_eq (lit "uptime") name then host.invoke name input s else (failed (lit "gone"), fresh 9)

host-ToolsFollow : ToolsFollow host
unfolding ToolsFollow after_all
host-ToolsFollow name input s = record { acts = []; at = refl }

abbrev asked_once : Request
asked_once = record {
  system_prompt = lit "base";
  user_prompt = lit "Check the app.";
  tools = (lit "uptime", uptime) ∷ [];
  max_tool_calls = 3;
  model = [];
  log_sink = record { run_id = lit "run_1"; seq = 0 };
}

two_turns :
    (converse sonnet host stub asked_once (fresh 1)).result
    ≡ record { final_message = lit "All well."; tool_calls = 1; cost_usd_micro = 0; error = [] }
unfolding converse loop on_reply respond tool_turn run_tools run_tool run_found after_invoke
    log_line get_tool get str_eq
two_turns = refl

-- an API that gives another answer to a request with another model
abbrev picky : Api
picky q = if str_eq q.model (lit "sonnet") then stub q else responded 404 (lit "404") [] (err [])

converse_asks_example :
    converse sonnet host stub asked_once (fresh 1) ≡ converse sonnet host picky asked_once (fresh 1)
converse_asks_example =
    converse_asks sonnet host stub picky asked_once (λ q p. picks q (str_eq_iff_true q p.of_model))
      (fresh 1)
  where
    picks : (q : ClaudeRequest) → str_eq q.model (lit "sonnet") ≡ true → stub q ≡ picky q
    picks q h = rw h refl

    str_eq_iff_true :
        (q : ClaudeRequest) → q.model ≡ lit "sonnet" → str_eq q.model (lit "sonnet") ≡ true
    str_eq_iff_true q h = rw h (str_eq_refl (lit "sonnet"))

converse_invokes_example :
    converse sonnet host stub asked_once (fresh 1)
    ≡ converse sonnet (record host { invoke = other_invoke }) stub asked_once (fresh 1)
unfolding get_tool get
converse_invokes_example =
    converse_invokes sonnet host other_invoke stub asked_once agrees (fresh 1)
  where
    agrees :
        (t : Tool) (name input : Str) (s : Store)
        → get_tool name asked_once.tools ≡ some t
        → host.invoke name input s ≡ other_invoke name input s
    agrees t name input s h = elim (Bool-cases (str_eq (lit "uptime") name)) [
      | inl p ↦ rw p refl
      | inr p ↦ cc (rw p at h)
    ]

converse-EndsWithin_example : EndsWithin 3 (converse sonnet host stub asked_once (fresh 1))
converse-EndsWithin_example = converse-EndsWithin sonnet host stub asked_once (fresh 1)
