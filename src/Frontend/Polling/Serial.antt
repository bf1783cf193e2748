-- ===== src/Frontend/Polling/Serial.antt =====
-- The states that a poll reaches.
use accord_protocol.Prelude.{
  ℕ, ◌+◌, ◌-◌, ◌*◌, ◌≤◌, ◌<◌, min, ◌≡◌, refl, Bool, true, false, ◌&&◌, Option, none, some, subst,
  ◌==◌, if◌then◌else◌, arith,
}
use accord_protocol.Frontend.Polling.{
  Poll, max_delay, run, finish, report, Event, begins, succeeds, fails, timer_fires, refresh, stop,
  handle, start_polling, first_run,
}

-- When an event can happen: a run that is queued begins, a call that is open settles, a timer that
-- is set fires, and the methods may be called at any time.
abbrev pub IsEnabled : Event → Poll → Type 0
IsEnabled begins p = 0 < p.queued
IsEnabled succeeds p = 0 < p.called
IsEnabled fails p = 0 < p.called
IsEnabled timer_fires p = p.timer ≡ true
IsEnabled refresh p = Unit
IsEnabled stop p = Unit

pub data Reached (interval_ms : ℕ) : Poll → Type 0 where
  started : {p : Poll} → start_polling interval_ms ≡ some p → Reached interval_ms p
  handled :
      (e : Event) {p : Poll}
      → Reached interval_ms p
      → IsEnabled e p
      → Reached interval_ms (handle e p)

abbrev one_if : Bool → ℕ
one_if true = 1
one_if false = 0

-- At most one run is open, no timer is set beside it or after a stop, and the delay is between the
-- interval and the largest delay.
pub record IsSerial (interval_ms : ℕ) (p : Poll) : Type 0 where
  pub interval : p.interval_ms ≡ interval_ms
  pub single : p.queued + p.called ≡ one_if p.running
  pub waiting : (p.running && p.timer) ≡ false
  pub stopped : (p.aborted && p.timer) ≡ false
  pub least : interval_ms ≤ p.delay
  pub most : p.delay ≤ max_delay interval_ms

finish-IsSerial :
    (n : ℕ) (p : Poll)
    → p.interval_ms ≡ n
    → p.queued + p.called ≡ 0
    → (p.aborted && p.timer) ≡ false
    → n ≤ p.delay
    → p.delay ≤ max_delay n
    → IsSerial n (finish p)
finish-IsSerial n p i s t lo hi = record {
  interval = ground arith;
  single = ground arith;
  waiting = ground arith;
  stopped = ground arith;
  least = ground arith;
  most = ground arith;
}

guarded-IsSerial :
    {n : ℕ} (b : Bool) (p q : Poll)
    → (b ≡ true → IsSerial n p)
    → (b ≡ false → IsSerial n q)
    → IsSerial n (if b then p else q)
guarded-IsSerial true p q f g = f refl
guarded-IsSerial false p q f g = g refl

one_open : (q c : ℕ) (running : Bool) → q + c ≡ one_if running → q + c ≤ 1
one_open q c true h = omega (arith, h)
one_open q c false h = omega (arith, h)

settled : (n : ℕ) (p : Poll) → IsSerial n p → 0 < p.called → p.queued + (p.called - 1) ≡ 0
settled n p s h = omega (arith, one_open p.queued p.called p.running s.single, h)

begun : (n : ℕ) (p : Poll) → IsSerial n p → 0 < p.queued → p.queued - 1 + p.called ≡ 0
begun n p s h = omega (arith, one_open p.queued p.called p.running s.single, h)

report-IsSerial :
    (n : ℕ) (p : Poll)
    → p.interval_ms ≡ n
    → p.queued + p.called ≡ 0
    → (p.aborted && p.timer) ≡ false
    → n ≤ p.delay
    → p.delay ≤ max_delay n
    → IsSerial n (finish (report p))
report-IsSerial n p i s t lo hi = record {
  interval = ground arith;
  single = ground arith;
  waiting = ground arith;
  stopped = ground arith;
  least = ground arith;
  most = ground arith;
}

run-IsSerial :
    (n d : ℕ) (p : Poll)
    → p.running ≡ false
    → n ≤ d
    → d ≤ max_delay n
    → IsSerial n p
    → IsSerial n (run (record p { timer = false; delay = d }))
run-IsSerial n d p idle lo hi s = record {
  interval = s.interval;
  single = ground (arith, s.single, idle);
  waiting = refl;
  stopped = ground arith;
  least = lo;
  most = hi;
}

handle-IsSerial :
    (n : ℕ) (e : Event) (p : Poll) → IsEnabled e p → IsSerial n p → IsSerial n (handle e p)
unfolding handle
handle-IsSerial n begins p h s =
    guarded-IsSerial p.aborted _ _
      (λ a.
        finish-IsSerial n (record p { queued = p.queued - 1; delay = p.interval_ms }) s.interval
          (begun n p s h) s.stopped (omega (arith, s.interval)) (omega (arith, s.interval)))
      λ o. record {
        interval = s.interval;
        single = omega (arith, s.single, h);
        waiting = s.waiting;
        stopped = s.stopped;
        least = s.least;
        most = s.most;
      }
handle-IsSerial n succeeds p h s =
    finish-IsSerial n (record p { called = p.called - 1; delay = p.interval_ms }) s.interval
      (settled n p s h) s.stopped (omega (arith, s.interval)) (omega (arith, s.interval))
handle-IsSerial n fails p h s =
    report-IsSerial n
      (record p { called = p.called - 1; delay = min (p.delay * 2) (max_delay p.interval_ms) })
      s.interval (settled n p s h) s.stopped (omega (arith, s.interval, s.least))
      (omega (arith, s.interval))
handle-IsSerial n timer_fires p h s =
    run-IsSerial n p.delay p (ground (arith, s.waiting, h)) s.least s.most s
handle-IsSerial n refresh p h s =
    guarded-IsSerial p.aborted _ _ (λ a. s)
      λ o.
        guarded-IsSerial p.running _ _ (λ r. s)
          λ idle.
            run-IsSerial n p.interval_ms p idle (omega (arith, s.interval))
              (omega (arith, s.interval)) s
handle-IsSerial n stop p h s = record {
  interval = s.interval;
  single = s.single;
  waiting = ground arith;
  stopped = refl;
  least = s.least;
  most = s.most;
}

first_run-IsSerial : (n : ℕ) → IsSerial n (first_run n)
first_run-IsSerial n = record {
  interval = refl;
  single = refl;
  waiting = refl;
  stopped = refl;
  least = omega arith;
  most = omega arith;
}

if-eq-some :
    (b : Bool) (x p : Poll) → ◌≡◌ {A = Option Poll} (if b then none else some x) (some p) → x ≡ p
if-eq-some true x p h = absurd (cc h)
if-eq-some false x p h = cc h

started-IsSerial : (n : ℕ) (p : Poll) → start_polling n ≡ some p → IsSerial n p
unfolding start_polling
started-IsSerial n p h =
    subst (IsSerial n) (if-eq-some (n == 0) (first_run n) p h) (first_run-IsSerial n)

-- In every state that a poll with a given interval reaches, at most one run is open and no timer is
-- set beside it, no timer is set after a stop, and the delay is at least the interval and at most
-- the larger of it and thirty seconds.
pub Reached-IsSerial : (n : ℕ) (p : Poll) → Reached n p → IsSerial n p
Reached-IsSerial n p (started h) = started-IsSerial n p h
Reached-IsSerial n _ (handled e {p} r h) = handle-IsSerial n e p h (Reached-IsSerial n p r)
