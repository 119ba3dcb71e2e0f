-- ===== src/Report/Reporter.antt =====
-- internal/runreport/reporter.go: HTTPReporter.Report. The server is an argument: its reply to each
-- attempt, and whether the context ends while the reporter waits before an attempt.
use Prim.Native.Nat.{◌^◌}
use agent_ops.Prelude.{
  ℕ, zero, suc, ◌+◌, ◌-◌, ◌*◌, ◌/◌, ◌%◌, Str, lit, trim_space, Option, none, some, List, [], ◌∷◌,
  ◌++◌, Bool, true, false, ◌&&◌, ◌||◌, if◌then◌else◌, is_nil, ltb, leb, ◌==◌, any,
}
use agent_ops.Task.Runner.{RunRecord}

-- what client.Do ends with: an error, or a response with a status
pub data Reply : Type 0 where
  failed : Reply
  status : ℕ → Reply

abbrev pub is_success : Reply → Bool
is_success failed = false
is_success (status code) = leb 200 code && ltb code 300

abbrev pub max_retries : ℕ
max_retries = 2

-- in nanoseconds
abbrev pub base_backoff : ℕ
base_backoff = 500_000_000

-- what Report does: the numbers of its attempts, its waits, and whether an attempt was a success
pub record Trace : Type 0 where
  pub posts : List ℕ
  pub waits : List ℕ
  pub delivered : Bool

abbrev pub gave_up : Trace
gave_up = record { posts = []; waits = []; delivered = false }

-- `baseBackoff << (attempt - 1)`, before every attempt but the first
abbrev pub waits_before : ℕ → List ℕ
waits_before zero = []
waits_before (suc n) = base_backoff * 2 ^ n ∷ []

abbrev pub is_cut : (ℕ → Bool) → ℕ → Bool
is_cut ended zero = false
is_cut ended (suc n) = ended (suc n)

abbrev pub after_post : ℕ → Bool → Trace → Trace
after_post attempt true rest = record {
  posts = attempt ∷ [];
  waits = waits_before attempt;
  delivered = true;
}
after_post attempt false rest = record {
  posts = attempt ∷ rest.posts;
  waits = waits_before attempt ++ rest.waits;
  delivered = rest.delivered;
}

-- the loop from `attempt` on, with `left` attempts left; a wait that the context cuts short is no wait
unfoldable pub attempts : (ℕ → Reply) → (ℕ → Bool) → ℕ → ℕ → Trace
attempts replies ended attempt zero = gave_up
attempts replies ended attempt (suc left) =
    let rest = attempts replies ended (suc attempt) left in
    if is_cut ended attempt then gave_up else after_post attempt (is_success (replies attempt)) rest

-- url.PathEscape
abbrev is_plain : ℕ → Bool
is_plain c =
    (leb b'a' c && leb c b'z')
    || (leb b'A' c && leb c b'Z')
    || (leb b'0' c && leb c b'9')
    || any (λ d. c == d) (lit "-_.~$&+:=@")

abbrev hex_digit : ℕ → ℕ
hex_digit n = if ltb n 10 then b'0' + n else b'A' + (n - 10)

unfoldable pub path_escape : Str → Str
path_escape [] = []
path_escape (c ∷ s) =
    (if is_plain c then c ∷ [] else b'%' ∷ hex_digit (c / 16) ∷ hex_digit (c % 16) ∷ [])
    ++ path_escape s

-- strings.TrimRight(s, "/")
abbrev pub trim_slashes : Str → Str
trim_slashes [] = []
trim_slashes (c ∷ s) =
    let rest = trim_slashes s in if is_nil rest && (c == b'/') then [] else c ∷ rest

pub record Target : Type 0 where
  pub base_url : Str
  pub instance_id : Str
  pub token : Str

abbrev pub trimmed : Target → Target
trimmed t = record {
  base_url = trim_space t.base_url;
  instance_id = trim_space t.instance_id;
  token = trim_space t.token;
}

unfoldable pub endpoint : Target → Str
endpoint t = trim_slashes t.base_url ++ lit "/apps/" ++ path_escape t.instance_id ++ lit "/runs"

abbrev pub is_unset : Target → Bool
is_unset t = is_nil t.base_url || is_nil t.instance_id || is_nil t.token

-- where the attempts go and with which token, and what they came to; `none` without a target, or where
-- the record is not marshalled. The error that Report returns is always nil.
unfoldable pub report :
    (RunRecord → Option Str)
    → (ℕ → Reply)
    → (ℕ → Bool)
    → Target
    → RunRecord
    → Option (Str × Str × Str × Trace)
unfolding attempts endpoint
report marshal replies ended env rec = send (trimmed env) (marshal rec)
  where
    send : Target → Option Str → Option (Str × Str × Str × Trace)
    send t none = none
    send t (some body) =
        if is_unset t
        then none
        else some (endpoint t, t.token, body, attempts replies ended 0 (suc max_retries))
