-- ===== src/State/Events.antt =====
-- internal/state/state.go: Append and EventsSince.
use agent_ops.Prelude.{
  ℕ, ◌+◌, Str, Bool, ◌||◌, not, Option, none, some, Result, ok, err, List, if◌then◌else◌, is_nil,
  ltb, keep, take,
}
use agent_ops.Prelude.Int.{ℤ, lt_nat, pos_part, is_positive}
use agent_ops.State.Data.{Store, Event, StateError, type_required, marshal, database}
use agent_ops.State.Json.{raw}
use agent_ops.State.Tx.{Faults, insert_event}

-- `limit <= 0 || limit > most` takes the default
unfoldable pub clamp_limit : ℕ → ℕ → ℤ → ℕ
clamp_limit most default limit =
    if not (is_positive limit) || ltb most (pos_part limit) then default else pos_part limit

-- `payload` is what json.Marshal makes of the caller's value, `none` if it refuses it
unfoldable pub append_event :
    Faults → ℕ → Str → Option Str → Store → Result StateError Event × Store
unfolding insert_event
append_event f now typ none s = if is_nil typ then (err type_required, s) else (err marshal, s)
append_event f now typ (some payload) s =
    if is_nil typ then (err type_required, s) else if f.write then (err database, s) else (
      ok (record { seq = s.last_seq + 1; ts = now; typ = typ; payload = raw payload }),
      insert_event now typ (raw payload) s,
    )

abbrev pub after : ℤ → Event → Bool
after from_seq e = lt_nat from_seq e.seq

-- events stand in the order of their numbers, so `ORDER BY seq ASC` leaves them as they are
unfoldable pub events_since : Faults → ℤ → ℤ → Store → Result StateError (List Event)
unfolding clamp_limit
events_since f from_seq limit s =
    if f.read
    then err database
    else ok (take (clamp_limit 10000 1000 limit) (keep (after from_seq) s.events))
