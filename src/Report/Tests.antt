-- ===== src/Report/Tests.antt =====
-- A report that succeeds at the second attempt, and the endpoint of a target.
use agent_ops.Prelude.{ℕ, zero, suc, lit, [], ◌∷◌, ◌≡◌, refl, Bool, false}
use agent_ops.Report.Reporter.{Reply, status, attempts, Target, endpoint, path_escape}

abbrev second_time : ℕ → Reply
second_time zero = status 503
second_time (suc n) = status 202

abbrev never : ℕ → Bool
never n = false

abbrev app : Target
app = record { base_url = lit "https://api.example/"; instance_id = lit "a b"; token = lit "t" }

app-endpoint : endpoint app ≡ lit "https://api.example/apps/a%20b/runs"
unfolding endpoint path_escape
app-endpoint = refl

second_time_delivered : (attempts second_time never 0 3).posts ≡ 0 ∷ 1 ∷ []
unfolding attempts
second_time_delivered = refl
