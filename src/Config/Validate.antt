-- ===== src/Config/Validate.antt =====
-- internal/config/config.go: validate and Parse. Which texts the cron parser accepts is an argument.
use agent_ops.Prelude.{
  Str, lit, str_eq, Option, none, some, Result, ok, err, ◌>>=◌, ◌>>◌, List, [], ◌∷◌, Bool, ◌&&◌,
  ◌||◌, not, if◌then◌else◌, is_nil, is_blank, any,
}
use agent_ops.Prelude.Int.{is_positive}
use agent_ops.Config.Data.{Schedule, AgentConfig, McpClientConfig, Config, Environment}
use agent_ops.Config.Defaults.{apply_defaults}

pub data ConfigError : Type 0 where
  decode provider model_required api_key_env_required max_tool_calls : ConfigError
  schedule_name schedule_cron schedule_prompt bootstrap_prompt : ConfigError
  schedule_duplicate bad_cron client_duplicate url_required command_required : Str → ConfigError
  bad_transport : Str → Str → ConfigError
  client_name : ConfigError

abbrev pub has_name : Str → List Str → Bool
has_name name seen = any (λ n. str_eq n name) seen

abbrev pub valid_providers : List Str
valid_providers =
    lit "claude" ∷ lit "claude-cli" ∷ lit "codex" ∷ lit "gemini" ∷ lit "ollama" ∷ lit "none" ∷ []

abbrev pub needs_no_key : Str → Bool
needs_no_key p = str_eq p (lit "ollama") || str_eq p (lit "claude-cli") || str_eq p (lit "none")

unfoldable pub validate_agent : AgentConfig → Result ConfigError (Unit {0})
validate_agent a =
    if not (has_name a.provider valid_providers)
    then err provider
    else if str_eq a.provider (lit "claude") && is_nil a.model
    then err model_required
    else if is_nil a.api_key_env && not (needs_no_key a.provider)
    then err api_key_env_required
    else if not (is_positive a.max_tool_calls_per_task)
    then err max_tool_calls
    else ok tt

abbrev pub validate_schedule : (Str → Bool) → Schedule → List Str → Result ConfigError (Unit {0})
validate_schedule parses s seen =
    if is_nil s.name
    then err schedule_name
    else if has_name s.name seen
    then err (schedule_duplicate s.name)
    else if is_nil s.cron
    then err schedule_cron
    else if not (parses s.cron)
    then err (bad_cron s.cron)
    else if is_blank s.prompt
    then err schedule_prompt
    else ok tt

-- `seen` holds the names of the loop's map
unfoldable pub validate_schedules :
    (Str → Bool) → List Schedule → List Str → Result ConfigError (Unit {0})
validate_schedules parses [] seen = ok tt
validate_schedules parses (s ∷ ss) seen =
    validate_schedule parses s seen >> validate_schedules parses ss (s.name ∷ seen)

-- an unnamed first run gets its name
abbrev pub with_name : Schedule → Schedule
with_name b = if is_nil b.name then record b { name = lit "bootstrap" } else b

abbrev pub validate_bootstrap : Option Schedule → Result ConfigError (Option Schedule)
validate_bootstrap none = ok none
validate_bootstrap (some b) =
    if is_blank b.prompt then err bootstrap_prompt else ok (some (with_name b))

abbrev pub validate_client : McpClientConfig → List Str → Result ConfigError (Unit {0})
validate_client c seen =
    if is_blank c.name
    then err client_name
    else if has_name c.name seen
    then err (client_duplicate c.name)
    else if str_eq c.transport (lit "http")
    then (if is_blank c.url then err (url_required c.name) else ok tt)
    else if str_eq c.transport (lit "stdio")
    then (if is_blank c.command then err (command_required c.name) else ok tt)
    else err (bad_transport c.name c.transport)

unfoldable pub validate_clients : List McpClientConfig → List Str → Result ConfigError (Unit {0})
validate_clients [] seen = ok tt
validate_clients (c ∷ cs) seen = validate_client c seen >> validate_clients cs (c.name ∷ seen)

unfoldable pub validate : (Str → Bool) → Config → Result ConfigError Config
validate parses c =
    validate_agent c.agent
    >> validate_schedules parses c.schedules []
    >> validate_bootstrap c.bootstrap
    >>= λ b. validate_clients c.mcp_clients [] >> ok (record c { bootstrap = b })

-- Parse: `decoded` is what the YAML decoder makes of the text, `none` if it refuses it
unfoldable pub parse : (Str → Bool) → Environment → Option Config → Result ConfigError Config
parse parses env none = err decode
parse parses env (some c) = validate parses (apply_defaults env c)
