-- ===== src/McpClient/Tests.antt =====
-- A pool of two clients, a subprocess that does not come back, and the theorems there.
use agent_ops.Prelude.{
  ℕ, lit, str_eq, none, some, ok, [], ◌∷◌, ◌≡◌, refl, true, false, if◌then◌else◌,
}
use agent_ops.McpClient.Pool.{ClientConfig, Remote, new_client, boot}
use agent_ops.McpClient.Supervisor.{
  Steps, here, next, exits, notices, Supervisor, waiting, IsStuck, max_backoff, fresh_supervisor,
  restarted, restarted-IsStuck,
}

abbrev github : ClientConfig
github = record { name = lit "github"; transport = lit "stdio"; url = []; command = lit "gh-mcp" }

abbrev jira : ClientConfig
jira = record { name = lit "jira"; transport = lit "http"; url = lit "https://j"; command = [] }

abbrev half_up : Remote
half_up = record {
  start = λ c. none;
  initialize = λ c. if str_eq c.name (lit "jira") then some (lit "timeout") else none;
  list_tools = λ c. ok (lit "issues" ∷ []);
  close = λ c. none;
}

one_kept : (boot half_up (jira ∷ github ∷ [])).clients ≡ github ∷ []
unfolding boot new_client str_eq
one_kept = refl

-- the process has exited
abbrev crashed : Supervisor
crashed = record fresh_supervisor {
  process = record { running = true; done = some true; closed = false };
}

abbrev waiting_again : Supervisor
waiting_again = record crashed { phase = waiting }

abbrev crash : (max : ℕ) → Steps max fresh_supervisor waiting_again
crash max =
    next _ crashed _ (next _ fresh_supervisor _ (here _) (exits _ refl)) (notices _ refl refl)

restarted-IsStuck_example : IsStuck (restarted (max_backoff 60) false true waiting_again)
restarted-IsStuck_example =
    restarted-IsStuck (max_backoff 60) true waiting_again
      (restarted (max_backoff 60) false true waiting_again) (here _)
