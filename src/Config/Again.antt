-- ===== src/Config/Again.antt =====
-- internal/config/config.go: a configuration that Parse returned is parsed again, after the environment
-- and the defaults were applied to it and its MCP clients were changed.
use agent_ops.Prelude.{
  Str, lit, trim_space, Option, none, some, ok, ok_eq, ◌>>◌, List, [], ◌∷◌, ◌≡◌, refl, sym, ap, ◌∙◌,
  Bool, is_nil, is_blank, if◌then◌else◌, Bool-cases, inl, inr,
}
use agent_ops.Config.Data.{Schedule, McpClientConfig, Config, Environment}
use agent_ops.Config.Defaults.{apply_defaults, with_prompt, with_model}
use agent_ops.Config.DefaultsLaws.{apply_defaults_idempotent}
use agent_ops.Config.Validate.{
  validate_agent, validate_schedules, validate_bootstrap, with_name, validate_clients, validate,
  parse,
}
use agent_ops.Config.Valid.{both_ok, bind_ok, clients_ok}

abbrev named : Option Schedule → Option Schedule
named none = none
named (some b) = some (with_name b)

with_name-fields :
    (b : Schedule)
    → with_name b ≡ record b { name = if is_nil b.name then lit "bootstrap" else b.name }
with_name-fields b = elim (Bool-cases (is_nil b.name)) [ inl q ↦ rw q refl | inr q ↦ rw q refl ]

-- naming the first run commutes with its overrides by the environment
named-overrides :
    (p m : Str) (o : Option Schedule)
    → with_model m (with_prompt p (named o)) ≡ named (with_model m (with_prompt p o))
named-overrides [] [] o = refl
named-overrides [] (c ∷ m) none = refl
named-overrides (c ∷ p) [] none = refl
named-overrides (c ∷ p) (d ∷ m) none = refl
named-overrides [] (c ∷ m) (some b) =
    ap (λ (s : Schedule). some (record s { model = c ∷ m })) (with_name-fields b)
    ∙ sym (ap some (with_name-fields (record b { model = c ∷ m })))
named-overrides (c ∷ p) [] (some b) =
    ap (λ (s : Schedule). some (record s { prompt = c ∷ p })) (with_name-fields b)
    ∙ sym (ap some (with_name-fields (record b { prompt = c ∷ p })))
named-overrides (c ∷ p) (d ∷ m) (some b) =
    ap (λ (s : Schedule). some (record s { prompt = c ∷ p; model = d ∷ m })) (with_name-fields b)
    ∙ sym (ap some (with_name-fields (record b { prompt = c ∷ p; model = d ∷ m })))

-- the configuration with other clients, and its first run named
abbrev settle : List McpClientConfig → Config → Config
settle cs c = record c { bootstrap = named c.bootstrap; mcp_clients = cs }

apply_defaults-settle :
    (env : Environment) (cs : List McpClientConfig) (c : Config)
    → apply_defaults env (settle cs c) ≡ settle cs (apply_defaults env c)
unfolding apply_defaults
apply_defaults-settle env cs c =
    rw
      (named-overrides (trim_space env.bootstrap_prompt) (trim_space env.bootstrap_model)
        c.bootstrap)
      refl

bootstrap_named :
    (o b : Option Schedule)
    → validate_bootstrap o ≡ ok b
    → (b ≡ named o) × (validate_bootstrap (named o) ≡ ok (named o))
bootstrap_named none b q = (sym (ok_eq q), refl)
bootstrap_named (some s) b q = elim (Bool-cases (is_blank s.prompt)) [
  | inl p ↦ cc (p, q)
  | inr p ↦ (
    sym (ok_eq (rw p at q)),
    elim (Bool-cases (is_nil s.name)) [ inl n ↦ rw (n, p) refl | inr n ↦ rw (n, p, n) refl ],
  )
]

-- the checks of Parse, apart
record Checked (parses : Str → Bool) (a : Config) (c : Config) : Type 0 where
  agent : validate_agent a.agent ≡ ok tt
  schedules : validate_schedules parses a.schedules [] ≡ ok tt
  bootstrap : validate_bootstrap (named a.bootstrap) ≡ ok (named a.bootstrap)
  clients : validate_clients a.mcp_clients [] ≡ ok tt
  result : c ≡ record a { bootstrap = named a.bootstrap }

validate-Checked :
    (parses : Str → Bool) (a c : Config) → validate parses a ≡ ok c → Checked parses a c
unfolding validate
validate-Checked parses a c q =
    let va = validate_agent a.agent in
    let vs = validate_schedules parses a.schedules [] in
    let vb = validate_bootstrap a.bootstrap in
    let (o, first, last) =
      bind_ok (va >> vs >> vb)
        (λ o. validate_clients a.mcp_clients [] >> ok (record a { bootstrap = o })) c q in
    let (both, run) = both_ok (va >> vs) vb o first in
    let (agent_ok, schedules_ok) = both_ok va vs tt both in
    let (reach, e) = clients_ok a c o last in
    let (same, again) = bootstrap_named a.bootstrap o run in
    record {
      agent = agent_ok;
      schedules = schedules_ok;
      bootstrap = again;
      clients = reach;
      result = sym e ∙ ap (λ b. record a { bootstrap = b }) same;
    }

-- what Parse returned, with clients that pass validate
pub parse-again :
    (parses : Str → Bool) (env : Environment) (decoded : Option Config) (c : Config)
    (cs : List McpClientConfig)
    → parse parses env decoded ≡ ok c
    → validate_clients cs [] ≡ ok tt
    → parse parses env (some (record c { mcp_clients = cs })) ≡ ok (record c { mcp_clients = cs })
unfolding parse
parse-again parses env none c cs q h = cc q
parse-again parses env (some d) c cs q h =
    let a = apply_defaults env d in
    let k = validate-Checked parses a c q in
    let e : apply_defaults env (record c { mcp_clients = cs }) ≡ settle cs a =
      ap (λ (x : Config). apply_defaults env (record x { mcp_clients = cs })) k.result
      ∙ apply_defaults-settle env cs a
      ∙ ap (settle cs) (apply_defaults_idempotent env d) in
    rw (e, k.result) (unfold validate in rw (k.agent, k.schedules, k.bootstrap, h) refl)

-- the clients that Parse let through
pub parse_clients :
    (parses : Str → Bool) (env : Environment) (decoded : Option Config) (c : Config)
    → parse parses env decoded ≡ ok c
    → validate_clients c.mcp_clients [] ≡ ok tt
unfolding parse
parse_clients parses env none c q = cc q
parse_clients parses env (some d) c q =
    let k = validate-Checked parses (apply_defaults env d) c q in rw k.result k.clients
