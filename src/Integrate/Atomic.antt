-- ===== src/Integrate/Atomic.antt =====
-- internal/integrate/integrate.go: Add and Remove change both files, or neither.
use agent_ops.Prelude.{
  Str, Option, none, some, ok, err, List, ◌≡◌, refl, ◌&&◌, is_nil, if◌then◌else◌, Bool-cases, ◌⊎◌,
  inl, inr,
}
use agent_ops.Prelude.Assoc.{Assoc}
use agent_ops.Config.Data.{Config}
use agent_ops.Integrate.EnvFile.{merge_env}
use agent_ops.Integrate.Files.{
  Disk, Setting, Write, Calls, IntegrateError, settle_write, unless_failed, write_file_atomic,
  write_config_atomic, merge_env_file, text_of,
}
use agent_ops.Integrate.Model.{Outcome, finish_env, finish_config}

-- a file is written, or left as it is
pub Written : Str → Option Str → Write → Type 0
Written body old r = (r ≡ (ok tt, some body)) ⊎ ((e : IntegrateError) × (r ≡ (err e, old)))

settle_write-Written :
    (o : Option IntegrateError) (body : Str) (old : Option Str)
    → Written body old (settle_write o body old)
unfolding Written
settle_write-Written none body old = inl refl
settle_write-Written (some e) body old = inr (e, refl)

unless_failed-Written :
    (kind : Str → IntegrateError) (o : Option Str) (body : Str) (old : Option Str) (w : Write)
    → Written body old w
    → Written body old (unless_failed kind o old w)
unfolding Written
unless_failed-Written kind none body old w h = h
unless_failed-Written kind (some e) body old w h = inr (kind e, refl)

pub write_config_atomic-Written :
    (y : Setting) (calls : Calls) (c : Config) (old : Option Str)
    → Written (y.encode c) old (write_config_atomic y calls c old)
unfolding write_config_atomic write_file_atomic
write_config_atomic-Written y calls c old =
    unless_failed-Written _ calls.marshal_error (y.encode c) old _
      (settle_write-Written _ (y.encode c) old)

merge_env_file-Written :
    (calls : Calls) (set : Assoc Str) (del : List Str) (old : Option Str)
    → Written (merge_env set del (text_of old)) old (merge_env_file calls set del old)
unfolding merge_env_file write_file_atomic
merge_env_file-Written calls set del old =
    unless_failed-Written _ calls.env_read (merge_env set del (text_of old)) old _
      (settle_write-Written _ (merge_env set del (text_of old)) old)

-- the env file after a success
abbrev pub env_after : Assoc Str → List Str → Option Str → Option Str
env_after set del old =
    if is_nil set && is_nil del then old else some (merge_env set del (text_of old))

-- an outcome: success, with these texts in the files; or an error, and both files as before
pub data AllOrNothing {A : Type 0} (a : A) (config env : Option Str) (d : Disk)
    : Outcome A → Type 0 where
  all : AllOrNothing a config env d (ok a, record { config = config; env = env })
  nothing : (e : IntegrateError) → AllOrNothing a config env d (err e, d)

module _ {A : Type 0} (calls : Calls) (a : A) (body prev : Str) (set : Assoc Str) (del : List Str)
    (back : calls.write_back prev ≡ some prev) where
  finish_env_lem :
      (config env : Option Str) (after : Str) (r : Write)
      → config ≡ some prev
      → Written after env r
      → AllOrNothing a
          (some body)
          (some after)
          (record { config = config; env = env })
          (finish_env calls prev a r (record { config = some body; env = env }))
  unfolding Written
  finish_env_lem config env after r p (inl w) = rw w all
  finish_env_lem config env after r p (inr (e, w)) = rw (w, back, p) (nothing _)

  pub finish_config_lem :
      (d : Disk) (r : Write)
      → d.config ≡ some prev
      → Written body d.config r
      → AllOrNothing a
          (some body)
          (env_after set del d.env)
          d
          (finish_config calls prev a set del r d)
  unfolding Written
  finish_config_lem d r p (inr (e, w)) = rw w (nothing e)
  finish_config_lem d r p (inl w) = elim (Bool-cases (is_nil set && is_nil del)) [
    | inl n ↦ rw (w, n) all
    | inr n ↦
        rw (w, n)
          (finish_env_lem d.config d.env (merge_env set del (text_of d.env))
            (merge_env_file calls set del d.env) p (merge_env_file-Written calls set del d.env))
  ]
