-- ===== src/Frontend/EventPush/Closing.antt =====
-- What a closed push channel still does.
use accord_protocol.Prelude.{◌≡◌, refl, ap, ◌∙◌, Bool, true, false, List, [], ◌∷◌, if◌then◌else◌}
use accord_protocol.Frontend.EventPush.{
  Setting, Push, disconnected, Report, status_changed, Event, on_open, on_message, source_on_error,
  socket_on_error, socket_on_close, timer_fires, close, handle,
}

-- The state after a list of events.
unfoldable pub handle_all : Setting → List Event → Push → Push
handle_all w [] p = p
handle_all w (e ∷ es) p = handle_all w es (handle w e p)

-- What the callbacks are told of events after a close, put on a log: one report of the status
-- disconnected for each `close` among them, and nothing for any other event.
abbrev pub closing_reports : List Event → List Report → List Report
closing_reports [] l = l
closing_reports (close ∷ es) l = closing_reports es (status_changed disconnected ∷ l)
closing_reports (_ ∷ es) l = closing_reports es l

guarded_closed :
    (b : Bool) (p q : Push) → b ≡ true → p.is_closed ≡ true → (if b then p else q).is_closed ≡ true
guarded_closed true p q c o = o
guarded_closed false p q c o = absurd (cc c)

handle_closed :
    (w : Setting) (e : Event) (p : Push) → p.is_closed ≡ true → (handle w e p).is_closed ≡ true
unfolding handle
handle_closed w close p c = refl
handle_closed w _ p c = guarded_closed p.is_closed _ _ c c

guarded-log : (b : Bool) (p q : Push) → b ≡ true → (if b then p else q).log ≡ p.log
guarded-log true p q c = refl
guarded-log false p q c = absurd (cc c)

handle-log :
    (w : Setting) (e : Event) (p : Push)
    → p.is_closed ≡ true
    → (handle w e p).log ≡ closing_reports (e ∷ []) p.log
unfolding handle
handle-log w close p c = refl
handle-log w timer_fires p c = guarded-log p.is_closed _ _ c
handle-log w on_open p c = guarded-log p.is_closed _ _ c
handle-log w on_message p c = guarded-log p.is_closed _ _ c
handle-log w source_on_error p c = guarded-log p.is_closed _ _ c
handle-log w socket_on_error p c = guarded-log p.is_closed _ _ c
handle-log w socket_on_close p c = guarded-log p.is_closed _ _ c

closing_reports-cons :
    (e : Event) (es : List Event) (l : List Report)
    → closing_reports es (closing_reports (e ∷ []) l) ≡ closing_reports (e ∷ es) l
closing_reports-cons close es l = refl
closing_reports-cons timer_fires es l = refl
closing_reports-cons on_open es l = refl
closing_reports-cons on_message es l = refl
closing_reports-cons source_on_error es l = refl
closing_reports-cons socket_on_error es l = refl
closing_reports-cons socket_on_close es l = refl

handle_all-log :
    (w : Setting) (es : List Event) (p : Push)
    → p.is_closed ≡ true
    → (handle_all w es p).log ≡ closing_reports es p.log
unfolding handle_all
handle_all-log w [] p c = refl
handle_all-log w (e ∷ es) p c =
    handle_all-log w es (handle w e p) (handle_closed w e p c)
    ∙ ap (closing_reports es) (handle-log w e p c)
    ∙ closing_reports-cons e es p.log

-- Once `close` was called, whatever the browser still calls, in any order and even on handlers that
-- were taken off, the callbacks are told exactly one thing for each further call of `close`, which
-- is that the channel is disconnected, and nothing for any other event.
pub handle_all-silent :
    (w : Setting) (es : List Event) (p : Push)
    → (handle_all w es (handle w close p)).log ≡ closing_reports es (handle w close p).log
unfolding handle
handle_all-silent w es p = handle_all-log w es (handle w close p) refl
