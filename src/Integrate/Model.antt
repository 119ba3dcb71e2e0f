-- ===== src/Integrate/Model.antt =====
-- internal/integrate/integrate.go: Add, Remove and List. The lock makes each of them one step.
use agent_ops.Prelude.{
  ℕ, Str, lit, str_eq, Option, none, some, Result, ok, err, ◌>>=◌, ◌>>◌, List, [], ◌∷◌, ◌++◌, map,
  keep, Bool, true, not, ◌&&◌, is_nil, is_blank, if◌then◌else◌, ◌==◌,
}
use agent_ops.Prelude.Text.{str_le}
use agent_ops.Prelude.Assoc.{Assoc, put}
use agent_ops.Prelude.Sort.{sort}
use agent_ops.Config.Data.{Config, McpClientConfig}
use agent_ops.Config.Validate.{has_name}
use agent_ops.Integrate.EnvFile.{valid_env_key}
use agent_ops.Integrate.Files.{
  Disk, Write, Setting, Calls, IntegrateError, name_required, url_required, command_required,
  bad_transport, bad_auth_env, bad_extra_env, bad_stdio_env, already_exists, not_found, lock,
  env_rolled_back, read_config_file, write_config_atomic, merge_env_file,
}

pub record Options : Type 0 where
  pub config_path : Str
  pub env_path : Str
  pub lock_timeout : ℕ

pub record AddSpec : Type 0 where
  pub name : Str
  pub transport : Str
  pub url : Str
  pub command : Str
  pub args : List Str
  pub auth_env : Str
  pub token : Str
  pub extra_env : Assoc Str
  pub stdio_env : Assoc Str

pub record AddResult : Type 0 where
  pub name : Str
  pub restart_required : Bool
  pub config_path : Str
  pub env_path : Str

pub record RemoveResult : Type 0 where
  pub name : Str
  pub restart_required : Bool
  pub config_path : Str
  pub env_path : Str
  pub removed_auth_env : Str

unfoldable pub resolve_opts : Options → Options
resolve_opts o = record {
  config_path = if is_nil o.config_path then lit "/etc/agent-ops/config.yaml" else o.config_path;
  env_path = if is_nil o.env_path then lit "/etc/agent-ops/agent-ops.env" else o.env_path;
  lock_timeout = if o.lock_timeout == 0 then 10_000_000_000 else o.lock_timeout;
}

abbrev pub check_keys : (Str → IntegrateError) → Assoc Str → Result IntegrateError (Unit {0})
check_keys e [] = ok tt
check_keys e ((k, v) ∷ m) =
    let rest = check_keys e m in if not (valid_env_key k) then err (e k) else rest

abbrev pub check_transport : AddSpec → Result IntegrateError (Unit {0})
check_transport s =
    if str_eq s.transport (lit "http")
    then (if is_blank s.url then err url_required else ok tt)
    else if str_eq s.transport (lit "stdio")
    then (if is_blank s.command then err command_required else ok tt)
    else err (bad_transport s.transport)

abbrev pub check_auth_env : Str → Result IntegrateError (Unit {0})
check_auth_env key =
    if not (is_nil key) && not (valid_env_key key) then err (bad_auth_env key) else ok tt

unfoldable pub validate_add : AddSpec → Result IntegrateError (Unit {0})
validate_add s =
    if is_blank s.name
    then err name_required
    else check_transport s
      >> check_auth_env s.auth_env
      >> check_keys bad_extra_env s.extra_env
      >> check_keys bad_stdio_env s.stdio_env

-- copyStringMap: a copy of a map is the map
abbrev pub copy_string_map : Assoc Str → Assoc Str
copy_string_map m = m

abbrev pub client_of : AddSpec → McpClientConfig
client_of s = record {
  name = s.name;
  transport = s.transport;
  url = s.url;
  command = s.command;
  args = s.args;
  auth_env = s.auth_env;
  env = copy_string_map s.stdio_env;
}

abbrev pub names_of : List McpClientConfig → List Str
names_of cs = map (λ (c : McpClientConfig). c.name) cs

-- what goes to the env file
unfoldable pub env_pairs : AddSpec → Assoc Str
env_pairs s =
    if not (is_nil s.auth_env) && not (is_nil s.token)
    then put s.auth_env s.token s.extra_env
    else s.extra_env

abbrev pub Outcome : Type 0 → Type 0
Outcome A = Result IntegrateError A × Disk

abbrev failed_with : {A : Type 0} → IntegrateError → Disk → Outcome A
failed_with e d = (err e, d)

-- behind the write of the env file: an error rolls config.yaml back to its bytes
abbrev pub finish_env : {A : Type 0} → Calls → Str → A → Write → Disk → Outcome A
finish_env calls prev a (ok u, env) d = (ok a, record d { env = env })
finish_env calls prev a (err e, env) d =
    (err (env_rolled_back e), record { config = calls.write_back prev; env = env })

-- behind the write of config.yaml
abbrev pub finish_config :
    {A : Type 0} → Calls → Str → A → Assoc Str → List Str → Write → Disk → Outcome A
finish_config calls prev a set del (err e, config) d = (err e, record d { config = config })
finish_config calls prev a set del (ok u, config) d =
    if is_nil set && is_nil del
    then (ok a, record d { config = config })
    else finish_env calls prev a (merge_env_file calls set del d.env) (record d { config = config })

abbrev pub added : Options → Str → AddResult
added o name = record {
  name = name;
  restart_required = true;
  config_path = o.config_path;
  env_path = o.env_path;
}

abbrev pub add_read :
    Setting
    → Calls
    → AddSpec
    → Options
    → Result IntegrateError (Config × Str)
    → Disk
    → Outcome AddResult
add_read y calls spec o (err e) d = (err e, d)
add_read y calls spec o (ok (c, prev)) d =
    if has_name spec.name (names_of c.mcp_clients)
    then (err (already_exists spec.name), d)
    else finish_config calls prev (added o spec.name) (env_pairs spec) []
        (write_config_atomic y calls
          (record c { mcp_clients = c.mcp_clients ++ client_of spec ∷ [] }) d.config)
        d

abbrev pub add_locked : Setting → Calls → AddSpec → Options → Option Str → Disk → Outcome AddResult
add_locked y calls spec o (some e) d = (err (lock e), d)
add_locked y calls spec o none d =
    add_read y calls spec o (read_config_file y calls.config_read o.config_path d.config) d

abbrev pub add_checked :
    Setting
    → Calls
    → AddSpec
    → Options
    → Result IntegrateError (Unit {0})
    → Disk
    → Outcome AddResult
add_checked y calls spec o (err e) d = (err e, d)
add_checked y calls spec o (ok u) d = add_locked y calls spec (resolve_opts o) calls.lock_error d

unfoldable pub add : Setting → Calls → AddSpec → Options → Disk → Outcome AddResult
add y calls spec o d = add_checked y calls spec o (validate_add spec) d

-- the last client of the name, which Remove's loop leaves in `removed`
abbrev pub removed_client : Str → List McpClientConfig → Option McpClientConfig
removed_client name [] = none
removed_client name (c ∷ cs) = elim (removed_client name cs) [
  | some r ↦ some r
  | none ↦ if str_eq c.name name then some c else none
]

abbrev pub without : Str → List McpClientConfig → List McpClientConfig
without name cs = keep (λ (c : McpClientConfig). not (str_eq c.name name)) cs

abbrev pub removed_of : Options → Str → Str → RemoveResult
removed_of o name auth_env = record {
  name = name;
  restart_required = true;
  config_path = o.config_path;
  env_path = o.env_path;
  removed_auth_env = auth_env;
}

abbrev pub key_list : Str → List Str
key_list k = if is_nil k then [] else k ∷ []

abbrev pub remove_found :
    Setting
    → Calls
    → Str
    → Options
    → Config
    → Str
    → Option McpClientConfig
    → Disk
    → Outcome RemoveResult
remove_found y calls name o c prev none d = (err (not_found name), d)
remove_found y calls name o c prev (some r) d =
    finish_config calls prev (removed_of o name r.auth_env) [] (key_list r.auth_env)
      (write_config_atomic y calls (record c { mcp_clients = without name c.mcp_clients }) d.config)
      d

abbrev pub remove_read :
    Setting
    → Calls
    → Str
    → Options
    → Result IntegrateError (Config × Str)
    → Disk
    → Outcome RemoveResult
remove_read y calls name o (err e) d = (err e, d)
remove_read y calls name o (ok (c, prev)) d =
    remove_found y calls name o c prev (removed_client name c.mcp_clients) d

abbrev pub remove_locked :
    Setting → Calls → Str → Options → Option Str → Disk → Outcome RemoveResult
remove_locked y calls name o (some e) d = (err (lock e), d)
remove_locked y calls name o none d =
    remove_read y calls name o (read_config_file y calls.config_read o.config_path d.config) d

unfoldable pub remove_integration : Setting → Calls → Str → Options → Disk → Outcome RemoveResult
remove_integration y calls name o d =
    if is_blank name
    then (err name_required, d)
    else remove_locked y calls name (resolve_opts o) calls.lock_error d

-- ListItem has the fields of McpClientConfig; sort.Slice, whose order of equal names is left open,
-- is here a stable sort
abbrev pub by_name : McpClientConfig → McpClientConfig → Bool
by_name a b = str_le a.name b.name

unfoldable pub list_integrations :
    Setting → Option Str → Options → Disk → Result IntegrateError (List McpClientConfig)
list_integrations y e o d =
    read_config_file y e (resolve_opts o).config_path d.config >>= λ (c, raw).
    ok (sort by_name c.mcp_clients)
