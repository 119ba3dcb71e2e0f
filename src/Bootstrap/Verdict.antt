-- ===== src/Bootstrap/Verdict.antt =====
-- internal/bootstrap/bootstrap.go: extractJSONObject and parseVerifierJSON.
use agent_ops.Prelude.{
  ℕ, suc, ◌-◌, ◌==◌, Str, Option, none, some, Result, ok, err, [], ◌∷◌, Bool, if◌then◌else◌,
}

-- where the loop stands: outside of strings, in one, or behind a backslash in one
pub data Mode : Type 0 where
  outside in_string escaped : Mode

abbrev pub string_mode : ℕ → Mode
string_mode c = if c == b'\\' then escaped else if c == b'"' then outside else in_string

abbrev pub with_byte : ℕ → Option Str → Option Str
with_byte c none = none
with_byte c (some s) = some (c ∷ s)

-- the text up to the brace that closes the object, from a position with this depth
unfoldable pub balanced_text : Mode → ℕ → Str → Option Str
balanced_text mode depth [] = none
balanced_text escaped depth (c ∷ s) = with_byte c (balanced_text in_string depth s)
balanced_text in_string depth (c ∷ s) = with_byte c (balanced_text (string_mode c) depth s)
balanced_text outside depth (c ∷ s) =
    let quoted = with_byte c (balanced_text in_string depth s) in
    let deeper = with_byte c (balanced_text outside (suc depth) s) in
    let higher = with_byte c (balanced_text outside (depth - 1) s) in
    let same = with_byte c (balanced_text outside depth s) in
    if c == b'"'
    then quoted
    else if c == b'{'
    then deeper
    else if c == b'}'
    then (if depth == 1 then some (c ∷ []) else higher)
    else same

-- from the first brace on, where the depth is 0
unfoldable pub extract_json_object : Str → Option Str
extract_json_object [] = none
extract_json_object (c ∷ s) =
    let rest = extract_json_object s in if c == b'{' then balanced_text outside 0 (c ∷ s) else rest

pub record VerifierResult : Type 0 where
  pub pass : Bool
  pub evidence : Str
  pub fail_reason : Str

pub data VerdictError : Type 0 where
  no_object : VerdictError
  not_decoded : Str → VerdictError

abbrev pub decoded : Result Str VerifierResult → Result VerdictError VerifierResult
decoded (ok v) = ok v
decoded (err e) = err (not_decoded e)

abbrev pub parsed_object :
    (Str → Result Str VerifierResult) → Option Str → Result VerdictError VerifierResult
parsed_object decode none = err no_object
parsed_object decode (some raw) = decoded (decode raw)

unfoldable pub parse_verifier_json :
    (Str → Result Str VerifierResult) → Str → Result VerdictError VerifierResult
parse_verifier_json decode s = parsed_object decode (extract_json_object s)
