-- ===== src/Integrate/Files.antt =====
-- internal/integrate/integrate.go: the two files, and how they are read and written. The operating
-- system's calls are arguments: the error of a call, or `none` if it succeeds.
use agent_ops.Prelude.{Str, Option, none, some, Result, ok, err, List, [], ◌∷◌, Bool}
use agent_ops.Prelude.Assoc.{Assoc}
use agent_ops.Config.Data.{Config, Environment}
use agent_ops.Config.Validate.{ConfigError, parse}
use agent_ops.Integrate.EnvFile.{merge_env}

-- the contents of config.yaml and of agent-ops.env
pub record Disk : Type 0 where
  pub config : Option Str
  pub env : Option Str

-- yaml.v3 with the source's types, the cron parser, and the environment of the process
pub record Setting : Type 0 where
  pub decode : Str → Option Config
  pub encode : Config → Str
  pub parses : Str → Bool
  pub environment : Environment

-- the calls of one writeFileAtomic
pub record WriteCalls : Type 0 where
  pub mkdir : Option Str
  pub temp : Option Str
  pub write : Option Str
  pub chmod : Option Str
  pub sync : Option Str
  pub close : Option Str
  pub rename : Option Str

pub data IntegrateError : Type 0 where
  name_required url_required command_required : IntegrateError
  bad_transport bad_auth_env bad_extra_env bad_stdio_env : Str → IntegrateError
  already_exists not_found : Str → IntegrateError
  lock config_not_found read_config read_env marshal mkdir_failed temp_failed io rename_failed :
      Str → IntegrateError
  parse_config : ConfigError → IntegrateError
  env_rolled_back : IntegrateError → IntegrateError

pub record Calls : Type 0 where
  pub lock_error : Option Str
  -- os.ReadFile of config.yaml, where the file exists
  pub config_read : Option Str
  pub marshal_error : Option Str
  pub config_write : WriteCalls
  pub env_read : Option Str
  pub env_write : WriteCalls
  -- what config.yaml holds after os.WriteFile of these bytes, whose error is dropped
  pub write_back : Str → Option Str

abbrev pub first_error : List (Option Str × (Str → IntegrateError)) → Option IntegrateError
first_error [] = none
first_error ((none, e) ∷ calls) = first_error calls
first_error ((some m, e) ∷ calls) = some (e m)

-- the outcome of a write, and the file behind it
abbrev pub Write : Type 0
Write = Result IntegrateError (Unit {0}) × Option Str

abbrev pub settle_write : Option IntegrateError → Str → Option Str → Write
settle_write none body old = (ok tt, some body)
settle_write (some e) body old = (err e, old)

-- the temporary file takes the place of the file at the end, or never
unfoldable pub write_file_atomic : WriteCalls → Str → Option Str → Write
write_file_atomic w body old =
    settle_write
      (first_error (
        (w.mkdir, mkdir_failed)
        ∷ (w.temp, temp_failed)
        ∷ (w.write, io)
        ∷ (w.chmod, io)
        ∷ (w.sync, io)
        ∷ (w.close, io)
        ∷ (w.rename, rename_failed)
        ∷ []))
      body old

-- an error of a call before the write
abbrev pub unless_failed : (Str → IntegrateError) → Option Str → Option Str → Write → Write
unless_failed kind none old w = w
unless_failed kind (some e) old w = (err (kind e), old)

abbrev pub parsed_config : Str → Result ConfigError Config → Result IntegrateError (Config × Str)
parsed_config raw (err e) = err (parse_config e)
parsed_config raw (ok c) = ok (c, raw)

abbrev read_text : Setting → Option Str → Str → Result IntegrateError (Config × Str)
read_text y (some e) raw = err (read_config e)
read_text y none raw = parsed_config raw (parse y.parses y.environment (y.decode raw))

-- readConfig: the configuration, and the bytes for a roll back
unfoldable pub read_config_file :
    Setting → Option Str → Str → Option Str → Result IntegrateError (Config × Str)
read_config_file y e path none = err (config_not_found path)
read_config_file y e path (some raw) = read_text y e raw

unfoldable pub write_config_atomic : Setting → Calls → Config → Option Str → Write
write_config_atomic y calls c old =
    unless_failed marshal calls.marshal_error old
      (write_file_atomic calls.config_write (y.encode c) old)

abbrev pub text_of : Option Str → Str
text_of none = []
text_of (some t) = t

-- a file that does not exist is empty; any other error of the read ends it
unfoldable pub merge_env_file : Calls → Assoc Str → List Str → Option Str → Write
merge_env_file calls set del old =
    unless_failed read_env calls.env_read old
      (write_file_atomic calls.env_write (merge_env set del (text_of old)) old)
