-- ===== src/Config/DefaultsLaws.antt =====
-- What applyDefaults promises, whatever the file and the environment say.
use agent_ops.Prelude.{
  ℕ, zero, suc, ◌*◌, Str, lit, trim_space, Option, none, some, List, [], ◌∷◌, ◌≡◌, refl, ap,
  Bool-cases, inl, inr,
}
use agent_ops.Prelude.Int.{ℤ, pos, negsuc, wrap64}
use agent_ops.Config.Data.{Schedule, Config, Environment}
use agent_ops.Config.Defaults.{
  apply_defaults, or_text, or_number, with_prompt, with_model, atoi, positive, set_health_prompt,
  health_prompt, is_health_check,
}

or_text_twice : (d s : Str) → or_text d (or_text d s) ≡ or_text d s
or_text_twice [] [] = refl
or_text_twice (b ∷ d) [] = refl
or_text_twice d (c ∷ s) = refl

or_number_twice : (d n : ℤ) → or_number d (or_number d n) ≡ or_number d n
or_number_twice (pos zero) (pos zero) = refl
or_number_twice (pos (suc k)) (pos zero) = refl
or_number_twice (negsuc k) (pos zero) = refl
or_number_twice d (pos (suc n)) = refl
or_number_twice d (negsuc n) = refl

-- a text, a default and a variable
or_var_twice :
    (d s v : Str) → or_text (or_text d (or_text (or_text d s) v)) v ≡ or_text (or_text d s) v
or_var_twice d s [] = or_text_twice d s
or_var_twice d s (c ∷ v) = refl

abbrev or_else_pos : (ℕ → ℤ) → Option ℕ → ℤ → ℤ
or_else_pos f o old = elim o [ none ↦ old | some n ↦ f n ]

or_else_twice :
    (f : ℕ → ℤ) (d n : ℤ) (o : Option ℕ)
    → or_else_pos f o (or_number d (or_else_pos f o (or_number d n)))
      ≡ or_else_pos f o (or_number d n)
or_else_twice f d n none = or_number_twice d n
or_else_twice f d n (some k) = refl

bootstrap_twice :
    (p m : Str) (b : Option Schedule)
    → with_model m (with_prompt p (with_model m (with_prompt p b))) ≡ with_model m (with_prompt p b)
bootstrap_twice [] [] b = refl
bootstrap_twice [] (c ∷ m) none = refl
bootstrap_twice [] (c ∷ m) (some b) = refl
bootstrap_twice (c ∷ p) [] none = refl
bootstrap_twice (c ∷ p) [] (some b) = refl
bootstrap_twice (c ∷ p) (e ∷ m) none = refl
bootstrap_twice (c ∷ p) (e ∷ m) (some b) = refl

set_health_prompt_twice :
    (p : Str) (cs : List Schedule)
    → set_health_prompt p (set_health_prompt p cs) ≡ set_health_prompt p cs
unfolding set_health_prompt
set_health_prompt_twice p [] = refl
set_health_prompt_twice p (c ∷ cs) = elim (Bool-cases (is_health_check c)) [
  | inl q ↦ rw (q, q)
  | inr q ↦ rw (q, q) (ap (λ l. c ∷ l) (set_health_prompt_twice p cs))
]

health_prompt_twice :
    (p : Str) (cs : List Schedule) → health_prompt p (health_prompt p cs) ≡ health_prompt p cs
health_prompt_twice [] cs = refl
health_prompt_twice (c ∷ p) cs = set_health_prompt_twice (c ∷ p) cs

-- ApplyDefaults is idempotent: in one environment, applying it to its own result changes nothing.
pub apply_defaults_idempotent :
    (env : Environment) (c : Config)
    → apply_defaults env (apply_defaults env c) ≡ apply_defaults env c
unfolding apply_defaults
apply_defaults_idempotent env c = rw (
  or_text_twice (lit "/var/lib/agent-ops") c.state_dir,
  or_text_twice (lit ":7842") c.mcp.listen_addr,
  or_text_twice (lit "AGENT_OPS_TOKEN") c.mcp.token_env,
  or_var_twice (lit "claude") c.agent.provider (trim_space env.provider),
  or_else_twice pos (pos 25) c.agent.max_tool_calls_per_task
      (positive (atoi (trim_space env.bootstrap_max_turns))),
  or_else_twice (λ n. wrap64 (n * 1_000_000)) (pos 900_000_000_000) c.agent.task_timeout
      (positive (atoi (trim_space env.bootstrap_timeout_ms))),
  health_prompt_twice (trim_space env.health_check_prompt) c.schedules,
  bootstrap_twice (trim_space env.bootstrap_prompt) (trim_space env.bootstrap_model) c.bootstrap,
)
