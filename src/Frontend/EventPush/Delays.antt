-- ===== src/Frontend/EventPush/Delays.antt =====
-- The time between two attempts to connect.
use accord_protocol.Prelude.{
  ℕ, suc, ◌*◌, ◌^◌, ◌≤◌, ◌≡◌, refl, arith, ltb, Bool, true, false, ◌&&◌, if◌then◌else◌, subst, sym,
  Option, none, some,
}
use native.Mathlib.Numerals.{unary_clauses}
use accord_protocol.Prelude.Text.{Text}
use accord_protocol.Frontend.EventPush.{
  Setting, Delay, Push, Event, on_open, on_message, source_on_error, socket_on_error,
  socket_on_close, timer_fires, close, grow, handle, initial_delay, max_delay, connect, connect_to,
  choose, is_sse, resolve_url, start_event_push, cleanup_active_connection,
}
use accord_protocol.Frontend.EventPush.Reach.{Reached, started, handled}

-- The delay lies between two numbers of milliseconds.
pub record IsWithin (lo hi : ℕ) (d : Delay) : Type 0 where
  pub least : lo * 2 ^ d.halvings ≤ d.numerator
  pub most : d.numerator ≤ hi * 2 ^ d.halvings

scaled : (lo p n : ℕ) → lo * p ≤ n → lo * (p * 2) ≤ n * 3
scaled lo p n h = grind arith

capped-IsWithin :
    (lo hi : ℕ) (d : Delay) (b : Bool)
    → lo ≤ hi
    → IsWithin lo hi d
    → ltb (hi * 2 ^ suc d.halvings) (d.numerator * 3) ≡ b
    → IsWithin lo hi (
        if b
        then record { numerator = hi; halvings = 0 }
        else record { numerator = d.numerator * 3; halvings = suc d.halvings })
capped-IsWithin lo hi d true le h e = record { least = omega arith; most = omega arith }
capped-IsWithin lo hi d false le h e = record {
  least = simp unary_clauses (scaled lo (2 ^ d.halvings) d.numerator h.least);
  most = ground arith;
}

grow-IsWithin : (lo hi : ℕ) (d : Delay) → lo ≤ hi → IsWithin lo hi d → IsWithin lo hi (grow hi d)
unfolding grow
grow-IsWithin lo hi d le h = capped-IsWithin lo hi d _ le h refl

choose-delay :
    (w : Setting) (sse : Bool) (url : Text) (p : Push) → (choose w sse url p).delay ≡ p.delay
choose-delay w sse url p = ground arith

connect_to-delay :
    (w : Setting) (url : Option Text) (p : Push) → (connect_to w url p).delay ≡ p.delay
connect_to-delay w none p = ground arith
connect_to-delay w (some url) p = choose-delay w (is_sse w url) url p

connect-delay : (w : Setting) (p : Push) → (connect w p).delay ≡ p.delay
unfolding connect
connect-delay w p = ground (arith, connect_to-delay w (resolve_url w) (cleanup_active_connection p))

guarded-IsWithin :
    {lo hi : ℕ} (b : Bool) (p q : Push)
    → IsWithin lo hi p.delay
    → IsWithin lo hi q.delay
    → IsWithin lo hi (if b then p else q).delay
guarded-IsWithin true p q f g = f
guarded-IsWithin false p q f g = g

-- The first delay is within the two bounds.
initial-IsWithin : (lo hi : ℕ) → lo ≤ hi → IsWithin lo hi (record { numerator = lo; halvings = 0 })
initial-IsWithin lo hi h = record { least = omega arith; most = omega arith }

initial_delay-le : (w : Setting) → initial_delay w ≤ max_delay w
initial_delay-le w = ground arith

connect-IsWithin :
    (lo hi : ℕ) (w : Setting) (p : Push)
    → IsWithin lo hi p.delay
    → IsWithin lo hi (connect w p).delay
connect-IsWithin lo hi w p h = subst (IsWithin lo hi) (sym (connect-delay w p)) h

handle-IsWithin :
    (w : Setting) (e : Event) (p : Push)
    → IsWithin (initial_delay w) (max_delay w) p.delay
    → IsWithin (initial_delay w) (max_delay w) (handle w e p).delay
unfolding handle
handle-IsWithin w on_open p h = guarded-IsWithin p.is_closed p _ h (
    guarded-IsWithin (p.is_closed && true) _ _ (initial-IsWithin _ _ (initial_delay-le w))
      (initial-IsWithin _ _ (initial_delay-le w)))
handle-IsWithin w timer_fires p h =
    guarded-IsWithin p.is_closed _ _ h
      (connect-IsWithin _ _ w _ (grow-IsWithin _ _ p.delay (initial_delay-le w) h))
handle-IsWithin w close p h = h
handle-IsWithin w on_message p h = guarded-IsWithin p.is_closed _ _ h h
handle-IsWithin w socket_on_error p h = guarded-IsWithin p.is_closed _ _ h h
handle-IsWithin w source_on_error p h =
    guarded-IsWithin p.is_closed _ _ h
      (guarded-IsWithin p.is_closed _ _ h (guarded-IsWithin (p.is_closed && true) _ _ h h))
handle-IsWithin w socket_on_close p h =
    guarded-IsWithin p.is_closed _ _ h
      (guarded-IsWithin p.is_closed _ _ h (guarded-IsWithin (p.is_closed && true) _ _ h h))

-- However long a push channel runs, the delay before its next attempt to connect stays between the
-- initial delay and the maximal one.
pub Reached-IsWithin :
    (w : Setting) (p : Push) → Reached w p → IsWithin (initial_delay w) (max_delay w) p.delay
unfolding start_event_push
Reached-IsWithin w _ started = connect-IsWithin _ _ w _ (initial-IsWithin _ _ (initial_delay-le w))
Reached-IsWithin w _ (handled e {p} r h) = handle-IsWithin w e p (Reached-IsWithin w p r)
