-- ===== src/Tool/Remote.antt =====
-- internal/tool/remote.go: a remote tool as a local one; and registerRemoteTools of
-- internal/daemon/daemon.go, which puts the tools of the started MCP clients into the registry.
use agent_ops.Prelude.{
  Str, lit, str_eq_iff, Option, none, some, Result, ok, err, List, [], ◌∷◌, ◌++◌, ◌≡◌, refl, Bool,
  true, false, ◌&&◌, not, if◌then◌else◌, is_nil, arith, Bool-cases, ◌⊎◌, inl, inr,
}
use agent_ops.Prelude.Text.{has_prefix, has_prefix-append}
use agent_ops.Prelude.Assoc.{get, get-put}
use agent_ops.Tool.Registry.{Tool, Registry, ToolError, register, get_tool, or_unchanged}
use agent_ops.Tool.RegistryLaws.{IsKeyed, register-IsKeyed}

pub record RemoteToolAdapter : Type 0 where
  pub client_name : Str
  pub remote_name : Str
  pub description : Str
  pub schema : Str

-- an empty input schema becomes a minimal one
unfoldable pub new_remote_tool_adapter : Str → Str → Str → Str → RemoteToolAdapter
new_remote_tool_adapter client_name remote_name description schema = record {
  client_name = client_name;
  remote_name = remote_name;
  description = description;
  schema = if is_nil schema then lit "{\"type\":\"object\",\"properties\":{}}" else schema;
}

abbrev pub prefix : Str → Str
prefix client_name = client_name ++ lit "_"

unfoldable pub adapter_name : RemoteToolAdapter → Str
adapter_name a =
    if not (is_nil a.client_name) && has_prefix a.remote_name (prefix a.client_name)
    then a.remote_name
    else prefix a.client_name ++ a.remote_name

unfoldable pub adapter_description : RemoteToolAdapter → Str
adapter_description a =
    if is_nil a.description
    then lit "Remote MCP tool '"
      ++ a.remote_name
      ++ lit "' from client '"
      ++ a.client_name
      ++ lit "'."
    else a.description

-- what the registry reads of the adapter
unfoldable pub as_tool : RemoteToolAdapter → Tool
as_tool a = record { name = adapter_name a; description = adapter_description a; schema = a.schema }

-- CallTool's answer: text with the isError flag, or a transport error
pub data RemoteAnswer : Type 0 where
  answer : Str → Bool → RemoteAnswer
  failed : Str → RemoteAnswer

pub record ToolResult : Type 0 where
  pub output : Str
  pub truncated : Bool
  pub sensitive : Bool

abbrev pub plain : Str → ToolResult
plain output = record { output = output; truncated = false; sensitive = false }

abbrev pub error_text : RemoteToolAdapter → Str → Str
error_text a text = lit "remote-tool " ++ adapter_name a ++ lit ": " ++ text

-- the Result, and the error if there is one
unfoldable pub invoke_remote :
    (Str → Str → RemoteAnswer) → RemoteToolAdapter → Str → ToolResult × Option Str
invoke_remote call a args = convert (call a.remote_name args)
  where
    convert : RemoteAnswer → ToolResult × Option Str
    convert (failed e) = (plain [], some (error_text a e))
    convert (answer text true) = (plain text, some (error_text a text))
    convert (answer text false) = (plain text, none)

pub record ToolDef : Type 0 where
  pub name : Str
  pub description : Str
  pub schema : Str

-- a started client with the tools that it listed
pub record Started : Type 0 where
  pub client : Str
  pub tools : List ToolDef

abbrev pub adapt : Str → ToolDef → Tool
adapt client d = as_tool (new_remote_tool_adapter client d.name d.description d.schema)

-- a refused registration is logged and skipped
unfoldable pub register_client : Str → List ToolDef → Registry → Registry
register_client client [] reg = reg
register_client client (d ∷ ds) reg =
    register_client client ds (or_unchanged reg (register (some (adapt client d)) reg))

unfoldable pub register_remote_tools : List Started → Registry → Registry
unfolding register_client
register_remote_tools [] reg = reg
register_remote_tools (s ∷ ss) reg = register_remote_tools ss (register_client s.client s.tools reg)

-- The local name of a remote tool always begins with its client's name and an underscore, and is the
-- remote name or the remote name behind that prefix.
adapter_name-prefix :
    (a : RemoteToolAdapter)
    → (has_prefix (adapter_name a) (prefix a.client_name) ≡ true)
      × ((adapter_name a ≡ a.remote_name)
          ⊎ (adapter_name a ≡ prefix a.client_name ++ a.remote_name))
unfolding adapter_name
adapter_name-prefix a =
    elim (Bool-cases
      (not (is_nil a.client_name) && has_prefix a.remote_name (prefix a.client_name))) [
        | inl p ↦ rw p (ground arith, inl refl)
        | inr p ↦ rw p (has_prefix-append (prefix a.client_name) a.remote_name, inr refl)
      ]

-- a registration that succeeds moves no other tool
get-register :
    (k : Str) (t u : Tool) (reg reg' : Registry)
    → get k reg ≡ some t
    → register (some u) reg ≡ ok reg'
    → get k reg' ≡ some t
unfolding register
get-register k t u reg reg' h q = ground (arith, get-put u.name k u reg, str_eq_iff u.name k)

-- a tool that is there stays, and the registry stays well-formed
record Stays (k : Str) (t : Tool) (reg : Registry) : Type 0 where
  keyed : IsKeyed reg
  there : get k reg ≡ some t

or_unchanged-Stays :
    (k : Str) (t u : Tool) (reg : Registry)
    → Stays k t reg
    → Stays k t (or_unchanged reg (register (some u) reg))
or_unchanged-Stays k t u reg h = cases (register (some u) reg) refl
  where
    cases :
        (r : Result ToolError Registry) → register (some u) reg ≡ r → Stays k t (or_unchanged reg r)
    cases (err e) q = h
    cases (ok reg') q = record {
      keyed = register-IsKeyed (some u) reg reg' h.keyed q;
      there = get-register k t u reg reg' h.there q;
    }

register_client-Stays :
    (k : Str) (t : Tool) (client : Str) (ds : List ToolDef) (reg : Registry)
    → Stays k t reg
    → Stays k t (register_client client ds reg)
unfolding register_client
register_client-Stays k t client [] reg h = h
register_client-Stays k t client (d ∷ ds) reg h =
    register_client-Stays k t client ds _ (or_unchanged-Stays k t (adapt client d) reg h)

register_remote_tools-Stays :
    (k : Str) (t : Tool) (ss : List Started) (reg : Registry)
    → Stays k t reg
    → Stays k t (register_remote_tools ss reg)
unfolding register_remote_tools
register_remote_tools-Stays k t [] reg h = h
register_remote_tools-Stays k t (s ∷ ss) reg h =
    register_remote_tools-Stays k t ss _ (register_client-Stays k t s.client s.tools reg h)

-- Whatever tools the MCP clients list, a tool that the registry has keeps its name: a remote tool of
-- that local name is skipped, however late it comes. The registry stays well-formed.
get_tool-register_remote_tools :
    (k : Str) (t : Tool) (ss : List Started) (reg : Registry)
    → IsKeyed reg
    → get_tool k reg ≡ some t
    → (get_tool k (register_remote_tools ss reg) ≡ some t) × IsKeyed (register_remote_tools ss reg)
unfolding get_tool
get_tool-register_remote_tools k t ss reg h q =
    let s = register_remote_tools-Stays k t ss reg (record { keyed = h; there = q }) in
    (s.there, s.keyed)
