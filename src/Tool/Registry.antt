-- ===== src/Tool/Registry.antt =====
-- internal/tool/tool.go: Registry. A tool is what the registry reads of it: its name, and what it
-- shows to the model.
use agent_ops.Prelude.{
  Str, Option, none, some, Result, ok, err, List, [], ◌∷◌, Bool, if◌then◌else◌, is_nil, is_some,
}
use agent_ops.Prelude.Text.{str_le}
use agent_ops.Prelude.Sort.{sort}
use agent_ops.Prelude.Assoc.{Assoc, get, put, keys}

pub record Tool : Type 0 where
  pub name : Str
  pub description : Str
  pub schema : Str

abbrev pub Registry : Type 0
Registry = Assoc Tool

pub data ToolError : Type 0 where
  nil_tool empty_name : ToolError
  already_registered : Str → ToolError

-- `none` is a nil Tool
unfoldable pub register : Option Tool → Registry → Result ToolError Registry
register none r = err nil_tool
register (some t) r =
    if is_nil t.name
    then err empty_name
    else if is_some (get t.name r)
    then err (already_registered t.name)
    else ok (put t.name t r)

unfoldable pub get_tool : Str → Registry → Option Tool
get_tool name r = get name r

abbrev pub values : Registry → List Tool
values [] = []
values ((k, t) ∷ r) = t ∷ values r

abbrev pub by_name : Tool → Tool → Bool
by_name a b = str_le a.name b.name

unfoldable pub list : Registry → List Tool
list r = sort by_name (values r)

unfoldable pub names : Registry → List Str
names r = sort str_le (keys r)

-- `_ = out.Register(t)`: a refusal leaves `out` as it is
abbrev pub or_unchanged : Registry → Result ToolError Registry → Registry
or_unchanged out (ok r) = r
or_unchanged out (err e) = out

abbrev pub add_found : Option Tool → Registry → Registry
add_found none out = out
add_found (some t) out = or_unchanged out (register (some t) out)

-- the loop of Subset over the names that are left
unfoldable pub pick : Registry → List Str → Registry → Registry
pick r [] out = out
pick r (name ∷ allow) out = pick r allow (add_found (get name r) out)

unfoldable pub subset : List Str → Registry → Registry
subset allow r = if is_nil allow then r else pick r allow []
