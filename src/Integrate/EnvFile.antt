-- ===== src/Integrate/EnvFile.antt =====
-- internal/integrate/integrate.go: validEnvKey, envLineKey and the text that mergeEnvFile writes.
use agent_ops.Prelude.{
  ℕ, Str, lit, str_eq, Option, none, some, List, [], ◌∷◌, ◌++◌, Bool, true, false, not, ◌&&◌, ◌||◌,
  if◌then◌else◌, is_nil, is_blank, trim_space, leb, ◌==◌, any,
}
use agent_ops.Prelude.Text.{has_prefix, split, join}
use agent_ops.Prelude.Assoc.{Assoc, get}

abbrev pub is_letter : ℕ → Bool
is_letter c = (c == b'_') || (leb b'A' c && leb c b'Z') || (leb b'a' c && leb c b'z')

abbrev pub key_rest : Str → Bool
key_rest [] = true
key_rest (c ∷ s) = (is_letter c || (leb b'0' c && leb c b'9')) && key_rest s

unfoldable pub valid_env_key : Str → Bool
valid_env_key [] = false
valid_env_key (c ∷ s) = is_letter c && key_rest s

abbrev pub prefixed : ℕ → Option Str → Option Str
prefixed d none = none
prefixed d (some p) = some (d ∷ p)

-- `s[:strings.IndexByte(s, c)]`
unfoldable pub cut : ℕ → Str → Option Str
cut c [] = none
cut c (d ∷ s) = let rest = cut c s in if d == c then some [] else prefixed d rest

abbrev pub checked_key : Option Str → Str
checked_key none = []
checked_key (some p) = if is_nil p || not (valid_env_key (trim_space p)) then [] else trim_space p

unfoldable pub env_line_key : Str → Str
env_line_key ln =
    if is_nil (trim_space ln) || has_prefix (trim_space ln) (lit "#")
    then []
    else checked_key (cut b'=' (trim_space ln))

abbrev pub has_key : Str → List Str → Bool
has_key k seen = any (λ n. str_eq n k) seen

abbrev pub env_line : Str → Str → Str
env_line key v = key ++ b'=' ∷ v

abbrev pub replaced : Str → Str → Option Str → List Str × List Str
replaced ln key none = (ln ∷ [], [])
replaced ln key (some v) = (env_line key v ∷ [], key ∷ [])

-- the body of the first pass: the lines that a line leaves, and the key that it marks as seen
unfoldable pub edit : Assoc Str → List Str → Str → List Str × List Str
edit set del ln =
    if is_nil (env_line_key ln)
    then (ln ∷ [], [])
    else if has_key (env_line_key ln) del
    then ([], [])
    else replaced ln (env_line_key ln) (get (env_line_key ln) set)

unfoldable pub first_pass : Assoc Str → List Str → List Str → List Str × List Str
first_pass set del [] = ([], [])
first_pass set del (ln ∷ lns) =
    let (out, seen) = first_pass set del lns in
    let (o, k) = edit set del ln in (o ++ out, k ++ seen)

unfoldable pub second_pass : Assoc Str → List Str → List Str
second_pass [] seen = []
second_pass ((k, v) ∷ set) seen =
    let rest = second_pass set seen in if has_key k seen then rest else env_line k v ∷ rest

-- without the blank lines at the end
unfoldable pub tidy : List Str → List Str
tidy [] = []
tidy (ln ∷ lns) = let rest = tidy lns in if is_nil rest && is_blank ln then [] else ln ∷ rest

unfoldable pub merged_lines : Assoc Str → List Str → List Str → List Str
merged_lines set del lns =
    let (out, seen) = first_pass set del lns in tidy (out ++ second_pass set seen)

-- the text of the file after mergeEnvFile
unfoldable pub merge_env : Assoc Str → List Str → Str → Str
merge_env set del existing = join b'\n' (merged_lines set del (split b'\n' existing)) ++ lit "\n"
