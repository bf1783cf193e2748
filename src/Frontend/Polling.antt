-- ===== src/Frontend/Polling.antt =====
-- frontend/src/lib/polling.ts: a task that is repeated, one run at a time. The closure's variables
-- are a record, with counts of the runs that have not called the task yet, of the calls that have
-- not settled, and of the errors reported. An interval is a whole number of milliseconds.
pub mod Serial
use accord_protocol.Prelude.{
  ℕ, ◌+◌, ◌-◌, ◌*◌, min, max, Bool, true, false, Option, none, some, ◌==◌, if◌then◌else◌,
}

pub record Poll : Type 0 where
  pub interval_ms : ℕ
  pub delay : ℕ
  pub timer : Bool
  pub running : Bool
  pub aborted : Bool
  pub queued : ℕ
  pub called : ℕ
  pub reported : ℕ

abbrev pub max_delay : ℕ → ℕ
max_delay interval_ms = max interval_ms 30000

abbrev pub run : Poll → Poll
run p = record p { running = true; queued = p.queued + 1 }

-- The `finally` clause.
abbrev pub finish : Poll → Poll
finish p =
    if p.aborted then record p { running = false } else record p { running = false; timer = true }

abbrev pub report : Poll → Poll
report p = if p.aborted then p else record p { reported = p.reported + 1 }

-- The first `then` of a run, the task's settling, the timer, and the two methods.
pub data Event : Type 0 where
  begins succeeds fails timer_fires refresh stop : Event

unfoldable pub handle : Event → Poll → Poll
handle begins p =
    if p.aborted
    then finish (record p { queued = p.queued - 1; delay = p.interval_ms })
    else record p { queued = p.queued - 1; called = p.called + 1 }
handle succeeds p = finish (record p { called = p.called - 1; delay = p.interval_ms })
handle fails p = finish (
    report
      (record p { called = p.called - 1; delay = min (p.delay * 2) (max_delay p.interval_ms) }))
handle timer_fires p = run (record p { timer = false })
handle refresh p =
    if p.aborted
    then p
    else (if p.running then p else run (record p { timer = false; delay = p.interval_ms }))
handle stop p = record p { aborted = true; timer = false }

abbrev pub first_run : ℕ → Poll
first_run interval_ms = run (record {
  interval_ms = interval_ms;
  delay = interval_ms;
  timer = false;
  running = false;
  aborted = false;
  queued = 0;
  called = 0;
  reported = 0;
})

-- `startPolling`; an interval that is not positive is a RangeError.
unfoldable pub start_polling : ℕ → Option Poll
start_polling interval_ms = if interval_ms == 0 then none else some (first_run interval_ms)
