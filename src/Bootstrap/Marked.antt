-- ===== src/Bootstrap/Marked.antt =====
-- internal/bootstrap/bootstrap.go: when a first run by the task leaves its marker.
use agent_ops.Prelude.{
  ◌+◌, Str, lit, trim_space, Option, none, some, Result, ok, err, ◌≡◌, refl, ◌∙◌, Bool, true, false,
  ◌↔◌, inl, inr, ◌&&◌, is_nil, if◌then◌else◌, Bool-cases, arith,
}
use agent_ops.Config.Data.{Schedule}
use agent_ops.State.Data.{TaskRun, Store, StateError}
use agent_ops.State.Tasks.{upsert_task}
use agent_ops.Scheduler.Cron.{Cron}
use agent_ops.Scheduler.Model.{set_model_override}
use agent_ops.Bootstrap.Verdict.{VerifierResult, VerdictError, parse_verifier_json}
use agent_ops.Bootstrap.FirstRun.{
  Boot, FirstRunCalls, RunNowError, manual_task, in_mode, in_store, marked,
  finalize_bootstrap_success, task_run, judged, verifier_ran, verify_name, verifier_stored,
  run_verifier, if_passed, verified, completed_fact, task_ran, task_stored, install, from_marker,
  maybe_run_first_run,
}

-- whether the file is there after the write of the marker
abbrev pub left_by : Option (Str × Bool) → Bool
left_by none = true
left_by (some (e, left)) = left

else_taken : {A : Type 0} {b : Bool} (x y : A) → b ≡ false → (if b then x else y) ≡ y
else_taken x y h = rw h refl

module _ (C : Cron) (c : FirstRunCalls C) (sch : Schedule) where
  -- none of the modes that install without the task, and no marker
  pub record IsByTask (b : Boot C) : Type 0 where
    pub no_script : in_mode C c (lit "script") ≡ false
    pub no_cheatsheet : in_mode C c (lit "cheatsheet") ≡ false
    pub no_agent_script : in_mode C c (lit "agent_script") ≡ false
    pub found_none : c.stat ≡ none
    pub no_marker : b.marker ≡ false

  abbrev pub first_upsert : Boot C → Result StateError (Unit {0}) × Store
  first_upsert b =
      upsert_task c.first.upsert c.first.upserted (manual_task sch.name sch.prompt sch.tools)
        b.world.store

  abbrev pub first_task : Boot C → Store → Result RunNowError TaskRun × Boot C
  first_task b db = task_run C c c.first sch.name sch.prompt (in_store C db b)

  abbrev pub verifier_upsert : Boot C → Result StateError (Unit {0}) × Store
  verifier_upsert b =
      upsert_task c.verifier.upsert c.verifier.upserted
        (manual_task (verify_name sch) sch.verify_prompt sch.tools) b.world.store

  abbrev pub verifier_task : Boot C → Store → Result RunNowError TaskRun × Boot C
  verifier_task b db =
      task_run C c c.verifier (verify_name sch) sch.verify_prompt (record (in_store C db b) {
        scheduler = set_model_override C (verify_name sch) sch.verify_model b.scheduler;
      })

  -- from its task's upsert on: the task was stored and run, and the summary spells a verdict that passes
  pub record Passes (b : Boot C) (upserted : Result StateError (Unit {0}) × Store) : Type 0 where
    pub stored : upserted.0 ≡ ok tt
    pub run : TaskRun
    pub ran : (verifier_task b upserted.1).0 ≡ ok run
    pub verdict : VerifierResult
    pub parsed : parse_verifier_json c.decode run.summary ≡ ok verdict
    pub passed : verdict.pass ≡ true

  -- from its upsert on: the task was stored, RunNow returned its run, and the verifier, if there is one,
  -- passes
  pub record Completes (b : Boot C) (upserted : Result StateError (Unit {0}) × Store) : Type 0 where
    pub stored : upserted.0 ≡ ok tt
    pub run : TaskRun
    pub ran : (first_task b upserted.1).0 ≡ ok run
    pub checked :
        is_nil (trim_space sch.verify_prompt) ≡ false
        → (let b' = completed_fact C c run (first_task b upserted.1).1 in
            Passes b' (verifier_upsert b'))

  finalize-left : (b : Boot C) → (finalize_bootstrap_success C c b).1.marker ≡ left_by c.write
  unfolding finalize_bootstrap_success
  finalize-left b = go c.write
    where
      go :
          (w : Option (Str × Bool))
          → (marked C w (record b { handshakes = b.handshakes + 1 })).1.marker ≡ left_by w
      go none = refl
      go (some (e, left)) = refl

  judged_lem :
      (b : Boot C) (r : Result VerdictError VerifierResult)
      → (judged C c b r).0 ≡ true
      → (v : VerifierResult) × (r ≡ ok v) × (v.pass ≡ true)
  judged_lem b (err e) h = cc h
  judged_lem b (ok v) h = (v, refl, h)

  verifier_ran-true :
      (x : Result RunNowError TaskRun × Boot C)
      → (verifier_ran C c x).0 ≡ true
      → (r : TaskRun) × (x.0 ≡ ok r)
        × ((v : VerifierResult) × (parse_verifier_json c.decode r.summary ≡ ok v) × (v.pass ≡ true))
  verifier_ran-true (err e, b) h = cc h
  verifier_ran-true (ok r, b) h = (r, refl, judged_lem b (parse_verifier_json c.decode r.summary) h)

  judged-true :
      (b : Boot C) (r : Result VerdictError VerifierResult) (v : VerifierResult)
      → r ≡ ok v
      → v.pass ≡ true
      → (judged C c b r).0 ≡ true
  judged-true b (err e) v h p = cc h
  judged-true b (ok w) v h p = cc (h, p)

  ran-true :
      (x : Result RunNowError TaskRun × Boot C) (r : TaskRun) (v : VerifierResult)
      → x.0 ≡ ok r
      → parse_verifier_json c.decode r.summary ≡ ok v
      → v.pass ≡ true
      → (verifier_ran C c x).0 ≡ true
  ran-true (err e, b) r v h q p = cc h
  ran-true (ok r', b) r v h q p =
      let e : r ≡ r' = cc h in
      judged-true b (parse_verifier_json c.decode r'.summary) v (rw e at q) p

  verifier_stored-true :
      (b : Boot C) (x : Result StateError (Unit {0}) × Store)
      → (verifier_stored C c sch b x).0 ≡ true ↔ Passes b x
  verifier_stored-true b (err e, db) = (λ h. cc h, λ p. cc p.stored)
  verifier_stored-true b (ok u, db) = (
    λ h.
        let (r, ran, (v, parsed, passed)) = verifier_ran-true _ h in
        record { stored = refl; run = r; ran = ran; verdict = v; parsed = parsed; passed = passed },
    λ p. ran-true _ p.run p.verdict p.ran p.parsed p.passed,
  )

  marker-verifier_stored :
      (b : Boot C) (x : Result StateError (Unit {0}) × Store)
      → (verifier_stored C c sch b x).1.marker ≡ b.marker
  unfolding task_run
  marker-verifier_stored b (err e, db) = refl
  marker-verifier_stored b (ok u, db) = ran _
    where
      judged_keeps :
          (b' : Boot C) (r : Result VerdictError VerifierResult)
          → (judged C c b' r).1.marker ≡ b'.marker
      judged_keeps b' (err e) = refl
      judged_keeps b' (ok v) = refl

      ran : (x : Result RunNowError TaskRun × Boot C) → (verifier_ran C c x).1.marker ≡ x.1.marker
      ran (err e, b') = refl
      ran (ok r, b') = judged_keeps b' _

  if_passed-marker :
      (x : Bool × Boot C)
      → x.1.marker ≡ false
      → ((if_passed C c x).1.marker ≡ true) ↔ ((x.0 ≡ true) × (left_by c.write ≡ true))
  if_passed-marker (false, b) h = (λ q. cc (h, q), λ q. cc q.0)
  if_passed-marker (true, b) h = rw (finalize-left b) (λ q. (refl, q), λ q. q.1)

  -- the verifier's part, whatever the marker's conditions are
  verified-marker :
      (b : Boot C)
      → b.marker ≡ false
      → ((verified C c sch b).1.marker ≡ true) ↔ (
          (is_nil (trim_space sch.verify_prompt) ≡ false → Passes b (verifier_upsert b))
          × (left_by c.write ≡ true))
  unfolding verified run_verifier
  verified-marker b h = elim (Bool-cases (is_nil (trim_space sch.verify_prompt))) [
    | inl n ↦ rw (n, finalize-left b) (λ q. (λ m. cc m, q), λ q. q.1)
    | inr n ↦
        let m = if_passed-marker (run_verifier C c sch b) (marker-verifier_stored b _ ∙ h) in
        let v = verifier_stored-true b (verifier_upsert b) in
        rw n (λ q. let (t, l) = m.0 q in (λ k. v.0 t, l), λ q. m.1 (v.1 (q.0 refl), q.1))
  ]

  task_ran-marker :
      (x : Result RunNowError TaskRun × Boot C)
      → x.1.marker ≡ false
      → ((task_ran C c sch x).1.marker ≡ true) ↔ (
          ((r : TaskRun) × (x.0 ≡ ok r)
            × (is_nil (trim_space sch.verify_prompt) ≡ false
                → (let b' = completed_fact C c r x.1 in Passes b' (verifier_upsert b'))))
          × (left_by c.write ≡ true))
  unfolding completed_fact
  task_ran-marker (err e, b) h = (λ q. cc (h, q), λ ((r, q, p), l). cc q)
  task_ran-marker (ok r, b) h =
      let m = verified-marker (completed_fact C c r b) h in
      (
        λ q. let (p, l) = m.0 q in ((r, refl, p), l),
        λ ((r', q, p), l). let e : r' ≡ r = cc q in m.1 (rw e at p, l),
      )

  task_stored-marker :
      (b : Boot C) (x : Result StateError (Unit {0}) × Store)
      → b.marker ≡ false
      → ((task_stored C c sch b x).1.marker ≡ true) ↔ (Completes b x × (left_by c.write ≡ true))
  unfolding task_run
  task_stored-marker b (err e, db) h = (λ q. cc (h, q), λ (p, l). cc p.stored)
  task_stored-marker b (ok u, db) h =
      let m = task_ran-marker (first_task b db) h in
      (
        λ q.
            let ((r, ran, p), l) = m.0 q in
            (record { stored = refl; run = r; ran = ran; checked = p }, l),
        λ (p, l). m.1 ((p.run, p.ran, p.checked), l),
      )

  by_task_lem :
      (b : Boot C)
      → IsByTask b
      → maybe_run_first_run C c (some sch) b ≡ task_stored C c sch b (first_upsert b)
  unfolding maybe_run_first_run install
  by_task_lem b h = at c.stat h.found_none
    where
      at :
          (o : Option Str)
          → o ≡ none
          → from_marker C c (some sch) b o ≡ task_stored C c sch b (first_upsert b)
      at (some e) q = cc q
      at none q =
          let n : b.marker && c.up_before ≡ false = ground (arith, h.no_marker) in
          else_taken _ _ n
          ∙ else_taken _ _ h.no_script
          ∙ else_taken _ _ h.no_cheatsheet
          ∙ else_taken _ _ h.no_agent_script

  -- Where no mode installs without the task and there is no marker, the first run leaves the marker exactly
  -- if its task was stored, RunNow returned the run without an error, the verifier, where one is
  -- configured, ran and its summary spells a verdict that passes, and the write leaves the file. The
  -- status of the run is not asked for.
  pub maybe_run_first_run-marker :
      (b : Boot C)
      → IsByTask b
      → ((maybe_run_first_run C c (some sch) b).1.marker ≡ true)
        ↔ (Completes b (first_upsert b) × (left_by c.write ≡ true))
  maybe_run_first_run-marker b h =
      rw (by_task_lem b h) (task_stored-marker b (first_upsert b) h.no_marker)
