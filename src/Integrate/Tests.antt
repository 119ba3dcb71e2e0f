-- ===== src/Integrate/Tests.antt =====
-- An integration that is added and removed, and the theorems there.
use agent_ops.Prelude.{
  Str, lit, str_eq, trim_space, none, some, ok, List, [], ◌∷◌, ◌≡◌, refl, true, if◌then◌else◌,
  is_nil,
}
use agent_ops.Prelude.Int.{pos}
use agent_ops.Prelude.Text.{split, join, has_prefix}
use agent_ops.Prelude.Assoc.{get, put}
use agent_ops.Config.Data.{Config}
use agent_ops.Config.Defaults.{apply_defaults, atoi}
use agent_ops.Config.Validate.{
  validate_agent, validate_schedules, validate_clients, validate, parse,
}
use agent_ops.Integrate.EnvFile.{
  valid_env_key, cut, env_line_key, edit, first_pass, second_pass, tidy, merged_lines, merge_env,
}
use agent_ops.Integrate.EnvLaws.{keyed, expected}
use agent_ops.Integrate.FileLaws.{keyed-merge_env}
use agent_ops.Integrate.Files.{
  Disk, Setting, Calls, read_config_file, write_config_atomic, write_file_atomic, merge_env_file,
}
use agent_ops.Integrate.Model.{
  Options, AddSpec, validate_add, resolve_opts, env_pairs, added, add, remove_integration,
  removed_of,
}
use agent_ops.Integrate.AddLaws.{Added, Settled, add-Settled}
use agent_ops.Integrate.Reparse.{Undone, with_client, remove_integration-add}
use agent_ops.Integrate.Ready.{Ready, no_call_fails, no_write_fails, add_succeeds-Ready}

abbrev env_text : Str
env_text = lit "# tokens\nA=1\n B = 2\nA=3\n\n"

abbrev changes : List (Str × Str)
changes = (lit "A", lit "9") ∷ (lit "C", lit "x=y") ∷ []

merged_text : merge_env changes (lit "B" ∷ []) env_text ≡ lit "# tokens\nA=9\nA=9\n\n\nC=x=y\n"
unfolding merge_env merged_lines first_pass second_pass tidy edit env_line_key cut valid_env_key
    split join trim_space has_prefix get str_eq
merged_text = refl

-- a value with a line break sets another variable
injected :
    keyed (lit "B") (split b'\n' (merge_env ((lit "A", lit "1\nB=2") ∷ []) [] [])) ≡ lit "B=2" ∷ []
unfolding merge_env merged_lines first_pass second_pass tidy edit env_line_key cut valid_env_key
    split join trim_space has_prefix get str_eq
injected = refl

keyed-merge_env_example :
    keyed (lit "A") (split b'\n' (merge_env changes (lit "B" ∷ []) env_text))
    ≡ expected changes (lit "B" ∷ []) (lit "A") (keyed (lit "A") (split b'\n' env_text))
unfolding valid_env_key get str_eq
keyed-merge_env_example =
    keyed-merge_env changes (lit "B" ∷ []) env_text (lit "A") (refl, refl, (refl, refl, tt))
      (refl, (refl, tt)) refl

abbrev old_config : Config
old_config = record {
  state_dir = lit "/var/lib/agent-ops";
  agent = record {
    provider = lit "none";
    model = [];
    api_key_env = [];
    max_tool_calls_per_task = pos 25;
    task_timeout = pos 60;
  };
  schedules = [];
  bootstrap = none;
  mcp = record { listen_addr = lit ":7842"; token_env = lit "T" };
  mcp_clients = [];
}

abbrev zibby : AddSpec
zibby = record {
  name = lit "zibby";
  transport = lit "http";
  url = lit "https://z";
  command = [];
  args = [];
  auth_env = lit "Z_TOKEN";
  token = lit "s3cret";
  extra_env = (lit "N", lit "1") ∷ [];
  stdio_env = [];
}

-- two configurations, and their texts
abbrev setting : Setting
setting = record {
  decode =
      λ s. if str_eq s (lit "new") then some (with_client zibby old_config) else some old_config;
  encode = λ c. if is_nil c.mcp_clients then lit "old" else lit "new";
  parses = λ s. true;
  environment = record {
    provider = [];
    bootstrap_prompt = [];
    bootstrap_model = [];
    bootstrap_max_turns = [];
    bootstrap_timeout_ms = [];
    health_check_prompt = [];
  };
}

abbrev disk : Disk
disk = record { config = some (lit "old"); env = some env_text }

abbrev usual : Options
usual = record { config_path = []; env_path = []; lock_timeout = 0 }

-- the env file cannot be written
abbrev full_disk : Calls
full_disk = record no_call_fails {
  env_write = record no_write_fails { write = some (lit "no space") };
}

rolled_back : (add setting full_disk zibby usual disk).1 ≡ disk
unfolding add read_config_file write_config_atomic write_file_atomic merge_env_file validate_add
    valid_env_key str_eq parse validate validate_agent validate_schedules validate_clients
    apply_defaults trim_space env_pairs put merge_env atoi
rolled_back = refl

add-Settled_example :
    Settled (λ r d'. Added setting zibby disk d') disk (add setting full_disk zibby usual disk)
add-Settled_example = add-Settled setting full_disk (λ t. refl) disk zibby usual

add_succeeds-Ready_example :
    ((add setting no_call_fails zibby usual disk).0 ≡ ok (added (resolve_opts usual) (lit "zibby")))
    × Ready setting zibby disk (add setting no_call_fails zibby usual disk).1
unfolding validate_add valid_env_key str_eq parse validate validate_agent validate_schedules
    validate_clients apply_defaults trim_space env_pairs put get atoi
add_succeeds-Ready_example =
    add_succeeds-Ready setting zibby usual disk (lit "old") old_config refl refl refl refl refl
      (refl, tt) (refl, (refl, tt))

remove_integration-add_example :
    Undone setting zibby
      (removed_of (resolve_opts usual) (lit "zibby") (lit "Z_TOKEN"))
      disk
      (remove_integration setting no_call_fails
        (lit "zibby")
        usual
        (add setting no_call_fails zibby usual disk).1).1
unfolding add remove_integration read_config_file write_config_atomic write_file_atomic
    merge_env_file validate_add valid_env_key str_eq parse validate validate_agent
    validate_schedules validate_clients apply_defaults trim_space env_pairs put get atoi
remove_integration-add_example =
    remove_integration-add setting no_call_fails no_call_fails (λ t. refl) (λ t. refl) zibby usual
      usual disk (add setting no_call_fails zibby usual disk).1 _ (lit "old") old_config
      (added (resolve_opts usual) (lit "zibby")) _ refl refl refl refl refl refl
