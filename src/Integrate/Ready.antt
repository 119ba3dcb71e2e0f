-- ===== src/Integrate/Ready.antt =====
-- internal/integrate/integrate.go: what a daemon that starts after a successful Add finds.
use agent_ops.Prelude.{
  Str, str_eq, str_eq_iff, Option, none, some, Result, ok, [], ◌∷◌, ◌≡◌, refl, ap, ◌∙◌, Bool, true,
  false, not, ◌&&◌, is_nil, arith, Bool-cases, inl, inr, if◌then◌else◌,
}
use agent_ops.Prelude.Text.{split}
use agent_ops.Prelude.Assoc.{Assoc, get, put, get-put}
use agent_ops.Config.Data.{Config}
use agent_ops.Config.Validate.{has_name, parse}
use agent_ops.Integrate.EnvFile.{valid_env_key}
use agent_ops.Integrate.EnvLaws.{keyed, expected, written, IsEnvMap}
use agent_ops.Integrate.FileLaws.{OneLined, keyed-merge_env}
use agent_ops.Integrate.Files.{
  Disk, Setting, Calls, IntegrateError, WriteCalls, text_of, read_config_file, write_config_atomic,
  write_file_atomic, merge_env_file,
}
use agent_ops.Integrate.Model.{
  Options, AddSpec, AddResult, Outcome, validate_add, names_of, added, resolve_opts, check_auth_env,
  check_keys, env_pairs, add,
}
use agent_ops.Integrate.Atomic.{env_after}
use agent_ops.Integrate.AddLaws.{Added, add-Settled}
use agent_ops.Integrate.Reparse.{
  IsSound, validate_add-IsSound, Added-parse, Added-same, with_client, IsFaithful, settled_ok,
}

-- no key twice, as in a Go map
abbrev pub IsGoMap : Assoc Str → Type 0
IsGoMap [] = Unit
IsGoMap ((j, v) ∷ m) = (get j m ≡ none) × IsGoMap m

check_keys-IsEnvMap :
    (kind : Str → IntegrateError) (m : Assoc Str)
    → IsGoMap m
    → check_keys kind m ≡ ok tt
    → IsEnvMap m
check_keys-IsEnvMap kind [] h q = tt
check_keys-IsEnvMap kind ((j, v) ∷ m) (n, h) q = elim (Bool-cases (valid_env_key j)) [
  | inl p ↦ (p, n, check_keys-IsEnvMap kind m h (rw p at q))
  | inr p ↦ cc (rw p at q)
]

put-IsEnvMap :
    (k v : Str) (m : Assoc Str) → valid_env_key k ≡ true → IsEnvMap m → IsEnvMap (put k v m)
unfolding put
put-IsEnvMap k v [] p _ = (p, unfold get in refl, tt)
put-IsEnvMap k v ((j, w) ∷ m) p (q, n, h) = elim (Bool-cases (str_eq j k)) [
  | inl e ↦ rw e (p, rw ((str_eq_iff j k).0 e) at n, h)
  | inr e ↦
      let other : str_eq k j ≡ false = ground (arith, str_eq_iff j k, str_eq_iff k j) in
      rw e (q, rw (get-put k j v m, other) n, put-IsEnvMap k v m p h)
]

env_pairs-IsEnvMap :
    (spec : AddSpec) → IsSound spec → IsGoMap spec.extra_env → IsEnvMap (env_pairs spec)
unfolding env_pairs
env_pairs-IsEnvMap spec s g =
    let base = check_keys-IsEnvMap _ spec.extra_env g s.keyed_env in
    elim (Bool-cases (not (is_nil spec.auth_env) && not (is_nil spec.token))) [
      | inl p ↦ rw p (
          put-IsEnvMap spec.auth_env spec.token spec.extra_env
            (let t : check_auth_env spec.auth_env ≡ ok tt = s.keyed_token in ground arith) base)
      | inr p ↦ rw p base
    ]

-- the lines of a key after the env file was merged, or left alone
env_after_lines :
    (set : Assoc Str) (file : Option Str) (k : Str)
    → IsEnvMap set
    → OneLined set
    → is_nil k ≡ false
    → keyed k (split b'\n' (text_of (env_after set [] file)))
      ≡ expected set [] k (keyed k (split b'\n' (text_of file)))
env_after_lines [] file k e h n = unfold get in refl
env_after_lines (x ∷ set) file k e h n = keyed-merge_env (x ∷ set) [] (text_of file) k e h n

-- the value that a call gives to a variable: its token to that of the authentication, if it has both
abbrev pub wanted : AddSpec → Str → Option Str
wanted spec k =
    if not (is_nil spec.auth_env) && not (is_nil spec.token) && str_eq spec.auth_env k
    then some spec.token
    else get k spec.extra_env

get-env_pairs : (spec : AddSpec) (k : Str) → get k (env_pairs spec) ≡ wanted spec k
unfolding env_pairs
get-env_pairs spec k = elim (Bool-cases (not (is_nil spec.auth_env) && not (is_nil spec.token))) [
  | inl p ↦ rw p (get-put spec.auth_env k spec.token spec.extra_env)
  | inr p ↦ rw p refl
]

-- what the daemon finds
pub record Ready (y : Setting) (spec : AddSpec) (d d' : Disk) : Type 0 where
  pub old : Config
  pub prev : Str
  pub bytes : d.config ≡ some prev
  pub parsed : parse y.parses y.environment (y.decode prev) ≡ ok old
  pub started :
      parse y.parses y.environment (y.decode (text_of d'.config)) ≡ ok (with_client spec old)
  pub told :
      (k : Str)
      → is_nil k ≡ false
      → keyed k (split b'\n' (text_of d'.env))
        ≡ written k (wanted spec k) (keyed k (split b'\n' (text_of d.env)))

pub add-Ready :
    (y : Setting) (calls : Calls)
    → ((t : Str) → calls.write_back t ≡ some t)
    → (spec : AddSpec) (o : Options) (d d' : Disk) (prev : Str) (old : Config) (r : AddResult)
    → d.config ≡ some prev
    → parse y.parses y.environment (y.decode prev) ≡ ok old
    → IsFaithful y (with_client spec old)
    → IsGoMap spec.extra_env
    → OneLined (env_pairs spec)
    → add y calls spec o d ≡ (ok r, d')
    → Ready y spec d d'
add-Ready y calls back spec o d d' prev old r b p f g h q =
    let a =
      settled_ok (λ _ d'. Added y spec d d') d (add y calls spec o d) r d'
        (add-Settled y calls back d spec o) q in
    let sound = validate_add-IsSound spec a.valid in
    let same = Added-same y spec d d' prev old a b p in
    record {
      old = a.old;
      prev = a.prev;
      bytes = a.bytes;
      parsed = a.parsed;
      started = Added-parse y spec d d' a (rw same at f);
      told = λ k n.
          rw a.env (env_after_lines (env_pairs spec) d.env k (env_pairs-IsEnvMap spec sound g) h n)
          ∙ ap (λ o. written k o (keyed k (split b'\n' (text_of d.env)))) (get-env_pairs spec k);
    }

-- calls that all succeed
abbrev pub no_write_fails : WriteCalls
no_write_fails = record {
  mkdir = none;
  temp = none;
  write = none;
  chmod = none;
  sync = none;
  close = none;
  rename = none;
}

abbrev pub no_call_fails : Calls
no_call_fails = record {
  lock_error = none;
  config_read = none;
  marshal_error = none;
  config_write = no_write_fails;
  env_read = none;
  env_write = no_write_fails;
  write_back = some;
}

either_ok :
    {A : Type 0} (b : Bool) (r : Result IntegrateError A) (x z : Outcome A)
    → x.0 ≡ r
    → z.0 ≡ r
    → (if b then x else z).0 ≡ r
either_ok true r x z p q = p
either_ok false r x z p q = q

add_succeeds :
    (y : Setting) (spec : AddSpec) (o : Options) (d : Disk) (prev : Str) (old : Config)
    → d.config ≡ some prev
    → parse y.parses y.environment (y.decode prev) ≡ ok old
    → validate_add spec ≡ ok tt
    → has_name spec.name (names_of old.mcp_clients) ≡ false
    → (add y no_call_fails spec o d).0 ≡ ok (added (resolve_opts o) spec.name)
unfolding add read_config_file write_config_atomic write_file_atomic merge_env_file
add_succeeds y spec o d prev old c p v n =
    rw (v, c, p, n) (either_ok (is_nil (env_pairs spec) && true) _ _ _ refl refl)

-- If no call of the system fails, config.yaml parses, the call passes its checks, its name is new, its
-- variables are a map and no value has a line break, and the text of the new configuration decodes to
-- it, then Add succeeds. Config.yaml then parses, to the old configuration with the new client at its
-- end. In the env file, read line by line, each variable of the call, and that of its token, has its value
-- in each of its lines, and has a line, and every other variable has the lines that it had.
pub add_succeeds-Ready :
    (y : Setting) (spec : AddSpec) (o : Options) (d : Disk) (prev : Str) (old : Config)
    → d.config ≡ some prev
    → parse y.parses y.environment (y.decode prev) ≡ ok old
    → IsFaithful y (with_client spec old)
    → validate_add spec ≡ ok tt
    → has_name spec.name (names_of old.mcp_clients) ≡ false
    → IsGoMap spec.extra_env
    → OneLined (env_pairs spec)
    → ((add y no_call_fails spec o d).0 ≡ ok (added (resolve_opts o) spec.name))
      × Ready y spec d (add y no_call_fails spec o d).1
add_succeeds-Ready y spec o d prev old c p f v n g h =
    let q = add_succeeds y spec o d prev old c p v n in
    (
      q,
      add-Ready y no_call_fails (λ t. refl) spec o d _ prev old _ c p f g h
          (λ i. (q i, (add y no_call_fails spec o d).1)),
    )
