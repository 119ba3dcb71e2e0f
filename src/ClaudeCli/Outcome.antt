-- ===== src/ClaudeCli/Outcome.antt =====
-- internal/driver/claudecli/claudecli.go: when a run of the command counts as a success.
use agent_ops.Prelude.{
  Str, Option, none, some, [], ◌≡◌, ◌↔◌, refl, sym, ap, ◌∙◌, true, false, ◌||◌, ◌⊎◌, inl, inr,
  Bool-cases, arith,
}
use agent_ops.State.Data.{completed}
use agent_ops.Task.Runner.{Context, final_status, is_expired, is_cancelled}
use agent_ops.ClaudeCli.Stream.{StreamResult, StreamJson, parse_stream}
use agent_ops.ClaudeCli.Run.{Process, result_of, parsed_result, run_process}
use agent_ops.ClaudeCli.Events.{results, last_good, parse_stream-result}

-- the command ran to its end, and this is its result
pub record Ran (j : StreamJson) (p : Process) (r : StreamResult) : Type 0 where
  pub pipe : p.pipe_error ≡ none
  pub start : p.start_error ≡ none
  pub exit : p.exit_error ≡ none
  pub last : last_good (results j p.stdout) none ≡ some r

-- A command that ran to its end gives what the last result event says.
ran_lem :
    (j : StreamJson) (p : Process) (r : StreamResult) → Ran j p r → run_process j p ≡ result_of r
unfolding run_process
ran_lem j p r h =
    rw (h.pipe, h.start, h.exit, parse_stream-result j p.stdout p.scan_error ∙ h.last) refl

succeeded :
    (j : StreamJson) (p : Process) (pipe start exit : Option Str)
    → p.pipe_error ≡ pipe
    → p.start_error ≡ start
    → p.exit_error ≡ exit
    → (run_process j p).error ≡ []
    → (r : StreamResult) × Ran j p r
unfolding run_process
succeeded j p (some e) start exit a b c h = cc (rw a at h)
succeeded j p none (some e) exit a b c h = cc (rw (a, b) at h)
succeeded j p none none (some e) a b c h = cc (rw (a, b, c) at h)
succeeded j p none none none a b c h =
    by_result (parse_stream j p.stdout p.scan_error).0.out.result
      (parse_stream j p.stdout p.scan_error).1 (sym (parse_stream-result j p.stdout p.scan_error))
      (rw (a, b, c) at h)
  where
    by_result :
        (o : Option StreamResult) (e : Option Str)
        → last_good (results j p.stdout) none ≡ o
        → (parsed_result o (parse_stream j p.stdout p.scan_error).0.out.raw_tail e).error ≡ []
        → (r : StreamResult) × Ran j p r
    by_result (some r) e q k = (r, record { pipe = a; start = b; exit = c; last = q })
    by_result none (some e) q k = cc k
    by_result none none q k = cc k

-- the event does not say that the run failed, or says it without a message
pub IsSilent : StreamResult → Type 0
IsSilent r = (r.is_error ≡ false) ⊎ (r.error_message ≡ [])

silent_lem : (r : StreamResult) → ((result_of r).error ≡ []) ↔ IsSilent r
unfolding IsSilent
silent_lem r = elim (Bool-cases r.is_error) [
  | inl e ↦ rw e (λ h. inr h, λ h. elim h [ inl n ↦ cc n | inr m ↦ m ])
  | inr e ↦ rw e (λ h. inl refl, λ h. refl)
]

-- A run of the command has no error exactly if the pipe, the start and the end of the process had none,
-- its lines have a last result event, and this is no error or has an empty message.
pub run_process_lem :
    (j : StreamJson) (p : Process)
    → ((run_process j p).error ≡ []) ↔ ((r : StreamResult) × Ran j p r × IsSilent r)
run_process_lem j p = (
  λ h.
      let (r, k) = succeeded j p p.pipe_error p.start_error p.exit_error refl refl refl h in
      (r, k, (silent_lem r).0 (ap (λ t. t.error) (sym (ran_lem j p r k)) ∙ h)),
  λ h. ap (λ t. t.error) (ran_lem j p h.0 h.1) ∙ (silent_lem h.0).1 h.2,
)

-- A run whose last result event says that it failed, but has no message, is recorded as completed by
-- the runner, where no context is cancelled or expired.
pub failure_completed :
    (j : StreamJson) (p : Process) (r : StreamResult) (ctx cctx : Context)
    → Ran j p r
    → r.is_error ≡ true
    → r.error_message ≡ []
    → is_expired cctx || is_cancelled ctx || is_cancelled cctx ≡ false
    → final_status ctx cctx none (run_process j p).error ≡ (completed, [])
unfolding final_status
failure_completed j p r ctx cctx h e m c =
    let q : (run_process j p).error ≡ [] = ap (λ t. t.error) (ran_lem j p r h) ∙ rw (e, m) refl in
    rw q (ground arith)
