-- ===== src/Task/RunnerLaws.antt =====
-- What a call of Runner.Run leaves behind, whatever the driver does.
use agent_ops.Prelude.{
  Str, str_eq_refl, Option, none, some, Result, ok, err, List, [], ◌∷◌, ◌≡◌, refl, ◌∙◌, ap, true,
  false, ◌||◌, is_nil, arith, Bool-cases, inl, inr, ◌↔◌,
}
use agent_ops.State.Data.{RunStatus, completed, Store, StateError}
use agent_ops.State.Runs.{is_terminal}
use agent_ops.Task.Runner.{
  Spec, Driver, Answer, World, Env, Context, already_running, is_busy, mark_inflight,
  release_inflight, final_status, is_expired, is_cancelled, conclude, close_up, drive, if_started,
  with_run_id, run, refusal, send, with_store, RunRecord, status_of,
}

-- The status that Run decides on is terminal; it is `completed` exactly if neither context is cancelled
-- or past its deadline and the driver gave no error of either kind, and then there is no message.
pub final_status_lem :
    (ctx cctx : Context) (e : Option Str) (reported : Str)
    → (is_terminal (final_status ctx cctx e reported).0 ≡ true)
      × (((final_status ctx cctx e reported).0 ≡ completed) ↔ (
          (is_expired cctx || is_cancelled ctx || is_cancelled cctx ≡ false)
          × (e ≡ none)
          × (reported ≡ [])))
      × ((final_status ctx cctx e reported).0 ≡ completed
          → (final_status ctx cctx e reported).1 ≡ [])
unfolding final_status
final_status_lem ctx cctx none [] = ground arith
final_status_lem ctx cctx none (c ∷ cs) = ground arith
final_status_lem ctx cctx (some e) [] = ground arith
final_status_lem ctx cctx (some e) (c ∷ cs) = ground arith

inflight-send : (w : World) (rec : RunRecord) → (send w rec).inflight ≡ w.inflight
inflight-send w rec = ground arith

inflight-conclude :
    (env : Env) (id : Str) (spec : Spec) (prompt : Str) (a : Answer) (x : RunStatus × Str)
    (w : World) (r : Result StateError (Unit {0}) × Store)
    → (conclude env id spec prompt a x w r).1.inflight ≡ w.inflight
inflight-conclude env id spec prompt a (x, m) w (err e, s) = refl
inflight-conclude env id spec prompt a (x, m) w (ok u, s) = inflight-send (with_store w s) _

inflight-close_up :
    (env : Env) (id : Str) (spec : Spec) (prompt : Str) (a : Answer) (w : World)
    → (close_up env id spec prompt a w).1.inflight ≡ w.inflight
unfolding close_up
inflight-close_up env id spec prompt a w =
    inflight-conclude env id spec prompt a (status_of env a) w _

inflight-drive :
    (driver : Driver) (env : Env) (id : Str) (spec : Spec) (w : World)
    → (drive driver env id spec w).1.inflight ≡ w.inflight
unfolding drive
inflight-drive driver env id spec w = inflight-close_up env id spec _ _ w

inflight-if_started :
    (driver : Driver) (env : Env) (id : Str) (spec : Spec) (w : World)
    (r : Result StateError (Unit {0}) × Store)
    → (if_started driver env id spec w r).1.inflight ≡ w.inflight
inflight-if_started driver env id spec w (err e, s) = refl
inflight-if_started driver env id spec w (ok u, s) =
    inflight-drive driver env id spec (with_store w s)

inflight-with_run_id :
    (driver : Driver) (env : Env) (o : Option Str) (spec : Spec) (w : World)
    → (with_run_id driver env o spec w).1.inflight ≡ w.inflight
inflight-with_run_id driver env none spec w = refl
inflight-with_run_id driver env (some id) spec w = inflight-if_started driver env id spec w _

keep-free : (name : Str) (l : List Str) → is_busy name l ≡ false → release_inflight name l ≡ l
unfolding release_inflight
keep-free name [] h = refl
keep-free name (n ∷ l) h = ground (arith, keep-free name l)

release-mark :
    (name : Str) (l : List Str) → is_busy name l ≡ false → release_inflight name (name ∷ l) ≡ l
release-mark name l h =
    unfold release_inflight in rw (str_eq_refl name) (unfold release_inflight in keep-free name l h)

-- A call of Run leaves the set of tasks in flight as it found it, on every path, errors included; and
-- while a task is in flight a second call for it is refused and changes nothing at all.
run-inflight :
    (driver : Driver) (env : Env) (spec : Spec) (w : World)
    → ((run driver env spec w).1.inflight ≡ w.inflight)
      × (is_nil spec.name || is_nil spec.prompt ≡ false
          → is_busy spec.name w.inflight ≡ true
          → run driver env spec w ≡ (refusal already_running, w))
unfolding run mark_inflight
run-inflight driver env spec w = (
  elim (Bool-cases (is_nil spec.name)) [
    | inl p ↦ rw p
    | inr p ↦ elim (Bool-cases (is_nil spec.prompt)) [
      | inl q ↦ rw (p, q)
      | inr q ↦ elim (Bool-cases (is_busy spec.name w.inflight)) [
        | inl b ↦ rw (p, q, b)
        | inr b ↦
            rw (p, q, b)
              (ap (release_inflight spec.name) (
                  inflight-with_run_id driver env env.run_id spec
                    (record w { inflight = spec.name ∷ w.inflight }))
                ∙ release-mark spec.name w.inflight b)
      ]
    ]
  ],
  λ p b.
      let n : is_nil spec.name ≡ false = ground arith in
      let q : is_nil spec.prompt ≡ false = ground arith in rw (n, q, b),
)
