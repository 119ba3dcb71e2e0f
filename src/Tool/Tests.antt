-- ===== src/Tool/Tests.antt =====
-- The registry, remote tools and the shell tool at small inputs.
use agent_ops.Prelude.{lit, str_eq, some, [], ◌∷◌, refl}
use agent_ops.Prelude.Int.{pos}
use agent_ops.Prelude.Assoc.{get, put}
use agent_ops.Tool.Registry.{Tool, Registry, register}
use agent_ops.Tool.RegistryLaws.{IsKeyed, IsKeyed-empty, register-IsKeyed}
use agent_ops.Tool.Remote.{RemoteToolAdapter, Started}
use agent_ops.Tool.Shell.{ShellArgs, Shell, exit_error}

abbrev shell_entry : Tool
shell_entry = record { name = lit "shell"; description = lit "Run a command."; schema = lit "{}" }

abbrev fetch_entry : Tool
fetch_entry = record { name = lit "web_fetch"; description = lit "Fetch a URL."; schema = lit "{}" }

abbrev one_tool : Registry
one_tool = (lit "shell", shell_entry) ∷ []

abbrev two_tools : Registry
two_tools = (lit "shell", shell_entry) ∷ (lit "web_fetch", fetch_entry) ∷ []

one_tool-IsKeyed : IsKeyed one_tool
unfolding register get put str_eq
one_tool-IsKeyed = register-IsKeyed (some shell_entry) [] one_tool IsKeyed-empty refl

two_tools-IsKeyed : IsKeyed two_tools
unfolding register get put str_eq
two_tools-IsKeyed = register-IsKeyed (some fetch_entry) one_tool two_tools one_tool-IsKeyed refl

abbrev github_issue : RemoteToolAdapter
github_issue = record {
  client_name = lit "github";
  remote_name = lit "create_issue";
  description = [];
  schema = lit "{}";
}

-- a client whose one tool would take the name of another tool
abbrev web_client : Started
web_client = record {
  client = lit "web";
  tools = record { name = lit "fetch"; description = []; schema = [] } ∷ [];
}

abbrev grep_args : ShellArgs
grep_args = record { command = lit "grep x"; cwd = lit "/tmp"; timeout_seconds = pos 5 }

abbrev no_match : Shell
no_match command cwd timeout = (exit_error (pos 1), lit "abc")
