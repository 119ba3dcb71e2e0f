-- ===== src/Integrate/AddLaws.antt =====
-- internal/integrate/integrate.go: what Add and Remove leave in the two files.
use agent_ops.Prelude.{
  Str, Option, none, some, Result, ok, err, [], ◌∷◌, ◌++◌, ◌≡◌, refl, ap, false, is_blank,
  Bool-cases, inl, inr,
}
use agent_ops.Config.Data.{Config, McpClientConfig}
use agent_ops.Config.Validate.{ConfigError, has_name, parse}
use agent_ops.Integrate.Files.{
  Disk, Setting, Calls, IntegrateError, read_config_file, parsed_config,
}
use agent_ops.Integrate.Model.{
  Options, AddSpec, RemoveResult, Outcome, validate_add, env_pairs, client_of, names_of, added,
  add_read, add_locked, add_checked, add, removed_client, without, removed_of, key_list,
  remove_found, remove_read, remove_locked, remove_integration, resolve_opts,
}
use agent_ops.Integrate.Atomic.{
  AllOrNothing, all, nothing, env_after, finish_config_lem, write_config_atomic-Written,
}

-- the bytes that a read returns are those of the file, and they parse
record WasRead (y : Setting) (file : Option Str) (c : Config) (prev : Str) : Type 0 where
  bytes : file ≡ some prev
  parsed : parse y.parses y.environment (y.decode prev) ≡ ok c

read_lem :
    (y : Setting) (e : Option Str) (path : Str) (file : Option Str) (c : Config) (prev : Str)
    → read_config_file y e path file ≡ ok (c, prev)
    → WasRead y file c prev
unfolding read_config_file
read_lem y e path none c prev q = cc q
read_lem y (some e) path (some raw) c prev q = cc q
read_lem y none path (some raw) c prev q = go (parse y.parses y.environment (y.decode raw)) refl q
  where
    go :
        (r : Result ConfigError Config)
        → parse y.parses y.environment (y.decode raw) ≡ r
        → parsed_config raw r ≡ ok (c, prev)
        → WasRead y (some raw) c prev
    go (err e) p q = cc q
    go (ok b) p q =
        let same : b ≡ c = cc q in
        let bytes : raw ≡ prev = cc q in
        record { bytes = ap some bytes; parsed = rw (← bytes, ← same) p }

-- what a successful Add read and wrote
pub record Added (y : Setting) (spec : AddSpec) (d d' : Disk) : Type 0 where
  pub old : Config
  pub prev : Str
  pub bytes : d.config ≡ some prev
  pub parsed : parse y.parses y.environment (y.decode prev) ≡ ok old
  pub valid : validate_add spec ≡ ok tt
  pub is_new : has_name spec.name (names_of old.mcp_clients) ≡ false
  pub config :
      d'.config
      ≡ some (y.encode (record old { mcp_clients = old.mcp_clients ++ client_of spec ∷ [] }))
  pub env : d'.env ≡ env_after (env_pairs spec) [] d.env

pub record Removed (y : Setting) (name : Str) (r : RemoveResult) (d d' : Disk) : Type 0 where
  pub old : Config
  pub prev : Str
  pub client : McpClientConfig
  pub bytes : d.config ≡ some prev
  pub parsed : parse y.parses y.environment (y.decode prev) ≡ ok old
  pub found : removed_client name old.mcp_clients ≡ some client
  pub config :
      d'.config ≡ some (y.encode (record old { mcp_clients = without name old.mcp_clients }))
  pub env : d'.env ≡ env_after [] (key_list client.auth_env) d.env
  pub told : r.removed_auth_env ≡ client.auth_env

-- an error and the files as before, or a success of which `P` holds
pub data Settled {A : Type 0} (P : A → Disk → Type 0) (d : Disk) : Outcome A → Type 0 where
  refused : (e : IntegrateError) → Settled P d (err e, d)
  succeeded : (a : A) (d' : Disk) → P a d' → Settled P d (ok a, d')

settled :
    {A : Type 0} (P : A → Disk → Type 0) (a : A) (config env : Option Str) (d : Disk)
    (o : Outcome A)
    → AllOrNothing a config env d o
    → P a (record { config = config; env = env })
    → Settled P d o
settled P a config env d o all p = succeeded a _ p
settled P a config env d o (nothing e) p = refused e

module _ (y : Setting) (calls : Calls) (back : (t : Str) → calls.write_back t ≡ some t)
    (d : Disk) where
  module _ (spec : AddSpec) where
    add_read-Settled :
        (o : Options) (r : Result IntegrateError (Config × Str))
        → validate_add spec ≡ ok tt
        → read_config_file y calls.config_read o.config_path d.config ≡ r
        → Settled (λ _ d'. Added y spec d d') d (add_read y calls spec o r d)
    add_read-Settled o (err e) v q = refused e
    add_read-Settled o (ok (c, prev)) v q =
        let was = read_lem y calls.config_read o.config_path d.config c prev q in
        elim (Bool-cases (has_name spec.name (names_of c.mcp_clients))) [
          | inl n ↦ rw n (refused _)
          | inr n ↦
              let c' = record c { mcp_clients = c.mcp_clients ++ client_of spec ∷ [] } in
              rw n (
                settled (λ _ d'. Added y spec d d') (added o spec.name) _ _ d _
                  (finish_config_lem calls (added o spec.name) (y.encode c') prev (env_pairs spec)
                    [] (back prev) d _ was.bytes (write_config_atomic-Written y calls c' d.config))
                  (record {
                    old = c;
                    prev = prev;
                    bytes = was.bytes;
                    parsed = was.parsed;
                    valid = v;
                    is_new = n;
                    config = refl;
                    env = refl;
                  }))
        ]

    add_locked-Settled :
        (o : Options) (l : Option Str)
        → validate_add spec ≡ ok tt
        → Settled (λ _ d'. Added y spec d d') d (add_locked y calls spec o l d)
    add_locked-Settled o (some e) v = refused _
    add_locked-Settled o none v =
        add_read-Settled o (read_config_file y calls.config_read o.config_path d.config) v refl

    add_checked-Settled :
        (o : Options) (r : Result IntegrateError (Unit {0}))
        → validate_add spec ≡ r
        → Settled (λ _ d'. Added y spec d d') d (add_checked y calls spec o r d)
    add_checked-Settled o (err e) v = refused e
    add_checked-Settled o (ok u) v = add_locked-Settled (resolve_opts o) calls.lock_error v

    -- Whichever calls of the system fail, as long as config.yaml can be written back when the env file
    -- cannot be written: Add returns an error and leaves both files as they were, or it succeeds, the
    -- name is new, config.yaml spells the old configuration with the new client at its end, and the
    -- env file has the variables of the call merged.
    pub add-Settled : (o : Options) → Settled (λ _ d'. Added y spec d d') d (add y calls spec o d)
    unfolding add
    add-Settled o = add_checked-Settled o (validate_add spec) refl

  module _ (name : Str) where
    remove_found-Settled :
        (o : Options) (c : Config) (prev : Str) (f : Option McpClientConfig)
        → d.config ≡ some prev
        → parse y.parses y.environment (y.decode prev) ≡ ok c
        → removed_client name c.mcp_clients ≡ f
        → Settled (λ r d'. Removed y name r d d') d (remove_found y calls name o c prev f d)
    remove_found-Settled o c prev none b p q = refused _
    remove_found-Settled o c prev (some r) b p q =
        let c' = record c { mcp_clients = without name c.mcp_clients } in
        settled (λ r d'. Removed y name r d d') (removed_of o name r.auth_env) _ _ d _
          (finish_config_lem calls (removed_of o name r.auth_env) (y.encode c') prev []
            (key_list r.auth_env) (back prev) d _ b
            (write_config_atomic-Written y calls c' d.config))
          (record {
            old = c;
            prev = prev;
            client = r;
            bytes = b;
            parsed = p;
            found = q;
            config = refl;
            env = refl;
            told = refl;
          })

    remove_read-Settled :
        (o : Options) (r : Result IntegrateError (Config × Str))
        → read_config_file y calls.config_read o.config_path d.config ≡ r
        → Settled (λ r d'. Removed y name r d d') d (remove_read y calls name o r d)
    remove_read-Settled o (err e) q = refused e
    remove_read-Settled o (ok (c, prev)) q =
        let was = read_lem y calls.config_read o.config_path d.config c prev q in
        remove_found-Settled o c prev (removed_client name c.mcp_clients) was.bytes was.parsed refl

    remove_locked-Settled :
        (o : Options) (l : Option Str)
        → Settled (λ r d'. Removed y name r d d') d (remove_locked y calls name o l d)
    remove_locked-Settled o (some e) = refused _
    remove_locked-Settled o none =
        remove_read-Settled o (read_config_file y calls.config_read o.config_path d.config) refl

    -- Under the same condition, Remove returns an error and leaves both files as they were, or it
    -- succeeds, a client had the name, config.yaml spells the old configuration without the clients of
    -- that name, and the env file has lost the token's variable of that client, if it had one.
    pub remove_integration-Settled :
        (o : Options)
        → Settled (λ r d'. Removed y name r d d') d (remove_integration y calls name o d)
    unfolding remove_integration
    remove_integration-Settled o = elim (Bool-cases (is_blank name)) [
      | inl p ↦ rw p (refused _)
      | inr p ↦ rw p (remove_locked-Settled (resolve_opts o) calls.lock_error)
    ]
