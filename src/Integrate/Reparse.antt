-- ===== src/Integrate/Reparse.antt =====
-- internal/integrate/integrate.go: what Add and Remove wrote is read again.
use agent_ops.Prelude.{
  Str, str_eq, str_eq_refl, Option, some, ok, ok_eq, ◌>>◌, List, [], ◌∷◌, ◌++◌, ◌≡◌, refl, sym, ap,
  ◌∙◌, true, false, is_nil, is_blank, arith, Bool-cases, inl, inr,
}
use agent_ops.Prelude.Text.{split}
use agent_ops.Config.Data.{Config, McpClientConfig}
use agent_ops.Config.Validate.{has_name, validate_client, validate_clients, parse}
use agent_ops.Config.Valid.{both_ok}
use agent_ops.Config.Again.{parse-again, parse_clients}
use agent_ops.Integrate.EnvLaws.{keyed}
use agent_ops.Integrate.FileLaws.{keyed-merge_env}
use agent_ops.Integrate.Files.{Disk, Setting, Calls, text_of, bad_extra_env, bad_stdio_env}
use agent_ops.Integrate.Model.{
  Options, AddSpec, AddResult, RemoveResult, Outcome, validate_add, check_transport, check_auth_env,
  check_keys, client_of, names_of, add, removed_client, without, key_list, remove_integration,
}
use agent_ops.Integrate.Atomic.{env_after}
use agent_ops.Prelude.Assoc.{get}
use agent_ops.Integrate.AddLaws.{
  Added, Removed, Settled, refused, succeeded, add-Settled, remove_integration-Settled,
}

-- what the checks of Add find
pub record IsSound (spec : AddSpec) : Type 0 where
  pub named : is_blank spec.name ≡ false
  pub reachable : check_transport spec ≡ ok tt
  pub keyed_token : check_auth_env spec.auth_env ≡ ok tt
  pub keyed_env : check_keys bad_extra_env spec.extra_env ≡ ok tt

pub validate_add-IsSound : (spec : AddSpec) → validate_add spec ≡ ok tt → IsSound spec
unfolding validate_add
validate_add-IsSound spec v = elim (Bool-cases (is_blank spec.name)) [
  | inl b ↦ cc (rw b at v)
  | inr b ↦
      let t = check_transport spec in
      let a = check_auth_env spec.auth_env in
      let x = check_keys bad_extra_env spec.extra_env in
      let (tax, last) =
        both_ok (t >> a >> x) (check_keys bad_stdio_env spec.stdio_env) tt (rw b at v) in
      let (ta, third) = both_ok (t >> a) x tt tax in
      let (first, second) = both_ok t a tt ta in
      record { named = b; reachable = first; keyed_token = second; keyed_env = third }
]

-- the checks of Add are those of validate
validate_add-client :
    (spec : AddSpec) (seen : List Str)
    → IsSound spec
    → has_name spec.name seen ≡ false
    → validate_client (client_of spec) seen ≡ ok tt
validate_add-client spec seen v n =
    let reachable : check_transport spec ≡ ok tt = v.reachable in
    let named : is_blank spec.name ≡ false = v.named in ground arith

validate_clients-append :
    (cs : List McpClientConfig) (e : McpClientConfig) (seen : List Str)
    → validate_clients cs seen ≡ ok tt
    → ((more : List Str) → has_name e.name more ≡ false → validate_client e more ≡ ok tt)
    → has_name e.name seen ≡ false
    → has_name e.name (names_of cs) ≡ false
    → validate_clients (cs ++ e ∷ []) seen ≡ ok tt
unfolding validate_clients
validate_clients-append [] e seen v h n m = rw (h seen n) refl
validate_clients-append (c ∷ cs) e seen v h n m =
    let (p, q) = both_ok (validate_client c seen) (validate_clients cs (c.name ∷ seen)) tt v in
    let (other, rest) : (str_eq c.name e.name ≡ false) × (has_name e.name (names_of cs) ≡ false) =
      ground arith in
    rw p (validate_clients-append cs e (c.name ∷ seen) q h (rw other n) rest)

without-append :
    (name : Str) (cs : List McpClientConfig) (e : McpClientConfig)
    → e.name ≡ name
    → has_name name (names_of cs) ≡ false
    → (without name (cs ++ e ∷ []) ≡ cs) × (removed_client name (cs ++ e ∷ []) ≡ some e)
without-append name [] e p n =
    let q : str_eq e.name name ≡ true = rw p (str_eq_refl name) in (rw q refl, rw q refl)
without-append name (c ∷ cs) e p n =
    let (other, rest) : (str_eq c.name name ≡ false) × (has_name name (names_of cs) ≡ false) =
      ground arith in
    let (w, r) = without-append name cs e p rest in (rw (other, w) refl, rw r refl)

pub settled_ok :
    {A : Type 0} (P : A → Disk → Type 0) (d : Disk) (o : Outcome A) (a : A) (d' : Disk)
    → Settled P d o
    → o ≡ (ok a, d')
    → P a d'
settled_ok P d _ a d' (refused e) q = cc q
settled_ok P d _ a d' (succeeded b e p) q =
    let x : b ≡ a = cc q in let y : e ≡ d' = cc q in rw (← x, ← y) p

some_eq : {A : Type 0} {a b : A} → ◌≡◌ {A = Option A} (some a) (some b) → a ≡ b
some_eq h = cc h

abbrev pub with_client : AddSpec → Config → Config
with_client spec c = record c { mcp_clients = c.mcp_clients ++ client_of spec ∷ [] }

-- YAML text decodes to what it was encoded from
abbrev pub IsFaithful : Setting → Config → Type 0
IsFaithful y c = y.decode (y.encode c) ≡ some c

-- the configuration that Add wrote parses, to itself
pub Added-parse :
    (y : Setting) (spec : AddSpec) (d d' : Disk) (a : Added y spec d d')
    → IsFaithful y (with_client spec a.old)
    → parse y.parses y.environment (y.decode (text_of d'.config)) ≡ ok (with_client spec a.old)
Added-parse y spec d d' a faithful =
    let cs = a.old.mcp_clients ++ client_of spec ∷ [] in
    let sound = validate_add-IsSound spec a.valid in
    let checked : validate_clients cs [] ≡ ok tt =
      validate_clients-append a.old.mcp_clients (client_of spec) []
        (parse_clients y.parses y.environment (y.decode a.prev) a.old a.parsed)
        (λ more n. validate_add-client spec more sound n) refl a.is_new in
    rw (a.config, faithful)
      (parse-again y.parses y.environment (y.decode a.prev) a.old cs a.parsed checked)

-- the file has one configuration
pub Added-same :
    (y : Setting) (spec : AddSpec) (d d' : Disk) (prev : Str) (old : Config) (a : Added y spec d d')
    → d.config ≡ some prev
    → parse y.parses y.environment (y.decode prev) ≡ ok old
    → old ≡ a.old
Added-same y spec d d' prev old a b p =
    let same : prev ≡ a.prev = some_eq (sym b ∙ a.bytes) in
    ok_eq (sym p ∙ ap (λ t. parse y.parses y.environment (y.decode t)) same ∙ a.parsed)

-- what is left after an Add and a Remove of one integration
pub record Undone (y : Setting) (spec : AddSpec) (r : RemoveResult) (d d' : Disk) : Type 0 where
  pub old : Config
  pub prev : Str
  pub bytes : d.config ≡ some prev
  pub parsed : parse y.parses y.environment (y.decode prev) ≡ ok old
  pub config : d'.config ≡ some (y.encode old)
  pub parsed_again : parse y.parses y.environment (y.decode (text_of d'.config)) ≡ ok old
  pub told : r.removed_auth_env ≡ spec.auth_env
  pub no_token :
      is_nil spec.auth_env ≡ false → keyed spec.auth_env (split b'\n' (text_of d'.env)) ≡ []

deleted :
    (k : Str) (file : Option Str)
    → is_nil k ≡ false
    → keyed k (split b'\n' (text_of (env_after [] (key_list k) file))) ≡ []
unfolding get
deleted k file n =
    let gone = keyed-merge_env [] (k ∷ []) (text_of file) k tt tt n in
    rw n (rw (str_eq_refl k) at gone)

Undone_lem :
    (y : Setting) (spec : AddSpec) (r : RemoveResult) (d d1 d2 : Disk) (a : Added y spec d d1)
    → Removed y spec.name r d1 d2
    → IsFaithful y a.old
    → IsFaithful y (with_client spec a.old)
    → Undone y spec r d d2
Undone_lem y spec r d d1 d2 a m faithful faithful' =
    let read = Added-parse y spec d d1 a faithful' in
    let same : m.old ≡ with_client spec a.old = ok_eq (
      sym m.parsed
      ∙ ap (λ f. parse y.parses y.environment (y.decode (text_of f))) (sym m.bytes)
      ∙ read) in
    let (cs, found) = without-append spec.name a.old.mcp_clients (client_of spec) refl a.is_new in
    let client : m.client ≡ client_of spec =
      some_eq
        (sym m.found ∙ ap (λ (c : Config). removed_client spec.name c.mcp_clients) same ∙ found) in
    let config : d2.config ≡ some (y.encode a.old) =
      m.config
      ∙ ap
          (λ (c : Config).
            some (y.encode (record c { mcp_clients = without spec.name c.mcp_clients })))
          same
      ∙ ap (λ l. some (y.encode (record a.old { mcp_clients = l }))) cs in
    record {
      old = a.old;
      prev = a.prev;
      bytes = a.bytes;
      parsed = a.parsed;
      config = config;
      parsed_again =
          rw (config, faithful)
            (parse-again y.parses y.environment (y.decode a.prev) a.old a.old.mcp_clients a.parsed
              (parse_clients y.parses y.environment (y.decode a.prev) a.old a.parsed));
      told = m.told ∙ ap (λ (x : McpClientConfig). x.auth_env) client;
      no_token = λ n. rw (m.env, client) (deleted spec.auth_env d1.env n);
    }

module _ (y : Setting) (calls calls' : Calls) (back : (t : Str) → calls.write_back t ≡ some t)
    (back' : (t : Str) → calls'.write_back t ≡ some t) where
  -- After an Add and a Remove of the same name that succeed, where the text of the two configurations
  -- decodes to what it was encoded from: config.yaml spells the configuration that it was parsed to
  -- before, it parses again to that configuration, Remove has named the token's variable of the call,
  -- and no line of the env file sets that variable.
  pub remove_integration-add :
      (spec : AddSpec) (o o' : Options) (d d1 d2 : Disk) (prev : Str) (old : Config)
      (added : AddResult) (r : RemoveResult)
      → d.config ≡ some prev
      → parse y.parses y.environment (y.decode prev) ≡ ok old
      → IsFaithful y old
      → IsFaithful y (with_client spec old)
      → add y calls spec o d ≡ (ok added, d1)
      → remove_integration y calls' spec.name o' d1 ≡ (ok r, d2)
      → Undone y spec r d d2
  remove_integration-add spec o o' d d1 d2 prev old added r b w f f' p q =
      let a =
        settled_ok (λ _ d'. Added y spec d d') d (add y calls spec o d) added d1
          (add-Settled y calls back d spec o) p in
      let same = Added-same y spec d d1 prev old a b w in
      Undone_lem y spec r d d1 d2 a
        (settled_ok (λ x d'. Removed y spec.name x d1 d') d1
          (remove_integration y calls' spec.name o' d1) r d2
          (remove_integration-Settled y calls' back' d1 spec.name o') q)
        (rw same at f) (rw same at f')
