-- ===== src/Frontend/EventPush/Reach.antt =====
-- The states that a push channel reaches.
use accord_protocol.Prelude.{
  ◌≡◌, refl, Bool, true, false, ◌&&◌, ◌||◌, inl, inr, List, arith, Bool-cases, if◌then◌else◌,
  Option, none, some,
}
use accord_protocol.Prelude.Text.{Text}
use accord_protocol.Frontend.EventPush.{
  Setting, Delay, Push, PushChannelStatus, connected, disconnected, Report, Event, on_open,
  on_message, source_on_error, socket_on_error, socket_on_close, timer_fires, close, connect,
  connect_to, choose, open_channel, is_sse, resolve_url, handle, start_event_push,
  cleanup_active_connection, schedule_reconnect, Channel, event_source, web_socket, set_status,
}

-- When the browser can make an event happen: a handler stands on its own channel while that is
-- active, and a timer fires while it is set.
abbrev pub IsEnabled : Event → Push → Type 0
IsEnabled on_open p = (p.socket || p.source) ≡ true
IsEnabled on_message p = (p.socket || p.source) ≡ true
IsEnabled source_on_error p = p.source ≡ true
IsEnabled socket_on_error p = p.socket ≡ true
IsEnabled socket_on_close p = p.socket ≡ true
IsEnabled timer_fires p = p.timer ≡ true
IsEnabled close p = Unit

pub data Reached (w : Setting) : Push → Type 0 where
  started : Reached w (start_event_push w)
  handled : (e : Event) {p : Push} → Reached w p → IsEnabled e p → Reached w (handle w e p)

abbrev is_connected : PushChannelStatus → Bool
is_connected connected = true
is_connected _ = false

abbrev is_off : PushChannelStatus → Bool
is_off disconnected = true
is_off _ = false

-- At most one channel is active; a timer is set only while none is; a connected status has an
-- active channel; and a closed connection has neither and says so.
pub record IsSound (p : Push) : Type 0 where
  pub single : (p.socket && p.source) ≡ false
  pub waiting : ((p.socket || p.source) && p.timer) ≡ false
  pub live : is_connected p.status ≡ true → (p.socket || p.source) ≡ true
  pub quiet : p.is_closed ≡ true → (p.socket || (p.source || p.timer)) ≡ false
  pub final : p.is_closed ≡ true → is_off p.status ≡ true

open_channel-IsSound :
    (w : Setting) (c : Channel) (url : Text) (p : Push)
    → p.is_closed ≡ false
    → p.timer ≡ false
    → (p.socket || p.source) ≡ false
    → IsSound (open_channel w c url p)
open_channel-IsSound w web_socket url p o t n = record {
  single = ground arith;
  waiting = ground arith;
  live = λ h. ground arith;
  quiet = λ h. ground arith;
  final = λ h. ground arith;
}
open_channel-IsSound w event_source url p o t n = record {
  single = ground arith;
  waiting = ground arith;
  live = λ h. ground arith;
  quiet = λ h. ground arith;
  final = λ h. ground arith;
}

schedule_reconnect-IsSound :
    (p : Push)
    → p.is_closed ≡ false
    → (p.socket || p.source) ≡ false
    → IsSound (schedule_reconnect p)
schedule_reconnect-IsSound p o n = record {
  single = ground arith;
  waiting = ground arith;
  live = λ h. ground arith;
  quiet = λ h. ground arith;
  final = λ h. ground arith;
}

fallback-IsSound :
    (p : Push)
    → p.is_closed ≡ false
    → p.timer ≡ false
    → (p.socket || p.source) ≡ false
    → IsSound (set_status PushChannelStatus.fallback p)
fallback-IsSound p o t n = record {
  single = ground arith;
  waiting = ground arith;
  live = λ h. ground arith;
  quiet = λ h. ground arith;
  final = λ h. ground arith;
}

choose-IsSound :
    (w : Setting) (sse : Bool) (url : Text) (p : Push)
    → p.is_closed ≡ false
    → p.timer ≡ false
    → (p.socket || p.source) ≡ false
    → IsSound (choose w sse url p)
choose-IsSound w sse url p o t n = elim (Bool-cases (sse && w.offers event_source)) [
  | inl takes ↦ rw takes (open_channel-IsSound w event_source url p o t n)
  | inr other ↦ rw other (elim (Bool-cases (w.offers web_socket)) [
    | inl has ↦ rw has (open_channel-IsSound w web_socket url p o t n)
    | inr lacks ↦ rw lacks (fallback-IsSound p o t n)
  ])
]

connect_to-IsSound :
    (w : Setting) (url : Option Text) (p : Push)
    → p.is_closed ≡ false
    → p.timer ≡ false
    → (p.socket || p.source) ≡ false
    → IsSound (connect_to w url p)
connect_to-IsSound w none p o t n = fallback-IsSound p o t n
connect_to-IsSound w (some url) p o t n = choose-IsSound w (is_sse w url) url p o t n

-- A handler that does nothing once the channel is closed.
guarded-IsSound :
    (b : Bool) (p q : Push)
    → (b ≡ true → IsSound p)
    → (b ≡ false → IsSound q)
    → IsSound (if b then p else q)
guarded-IsSound true p q f g = f refl
guarded-IsSound false p q f g = g refl

connect-IsSound :
    (w : Setting) (p : Push) → p.is_closed ≡ false → p.timer ≡ false → IsSound (connect w p)
unfolding connect
connect-IsSound w p o t =
    guarded-IsSound p.is_closed p _ (λ c. absurd (cc (o, c)))
      λ _. connect_to-IsSound w (resolve_url w) (cleanup_active_connection p) o t refl

connected-IsSound :
    (p : Push) (d : Delay)
    → p.is_closed ≡ false
    → (p.socket || p.source) ≡ true
    → IsSound p
    → IsSound (set_status connected (record p { delay = d }))
connected-IsSound p d o n s = record {
  single = ground (arith, s.single);
  waiting = ground (arith, s.waiting);
  live = λ h. ground arith;
  quiet = λ h. ground arith;
  final = λ h. ground arith;
}

logged-IsSound : (p : Push) (l : List Report) → IsSound p → IsSound (record p { log = l })
logged-IsSound p l s = record {
  single = s.single;
  waiting = s.waiting;
  live = s.live;
  quiet = s.quiet;
  final = s.final;
}

closed-IsSound :
    (p : Push)
    → IsSound (
        set_status disconnected
          (cleanup_active_connection (record p { is_closed = true; timer = false })))
closed-IsSound p = record {
  single = refl;
  waiting = refl;
  live = λ h. cc;
  quiet = λ h. refl;
  final = λ h. refl;
}

spent-IsSound : (p : Push) → p.is_closed ≡ true → IsSound p → IsSound (record p { timer = false })
spent-IsSound p c s = record {
  single = s.single;
  waiting = ground arith;
  live = s.live;
  quiet = λ h. ground (arith, s.quiet c);
  final = s.final;
}

handle-IsSound :
    (w : Setting) (e : Event) (p : Push) → IsEnabled e p → IsSound p → IsSound (handle w e p)
unfolding handle
handle-IsSound w on_open p h s =
    guarded-IsSound p.is_closed p _ (λ _. s) λ o. connected-IsSound p _ o h s
handle-IsSound w on_message p h s =
    guarded-IsSound p.is_closed p _ (λ _. s) λ o. logged-IsSound p _ s
handle-IsSound w source_on_error p h s =
    guarded-IsSound p.is_closed p _ (λ _. s) λ o. schedule_reconnect-IsSound _ o refl
handle-IsSound w socket_on_error p h s =
    guarded-IsSound p.is_closed p _ (λ _. s) λ o. logged-IsSound p _ s
handle-IsSound w socket_on_close p h s =
    guarded-IsSound p.is_closed p _ (λ _. s) λ o. schedule_reconnect-IsSound _ o refl
handle-IsSound w timer_fires p h s =
    guarded-IsSound p.is_closed _ _ (λ c. spent-IsSound p c s) λ o. connect-IsSound w _ o refl
handle-IsSound w close p h s = closed-IsSound p

-- In every state that a push channel reaches, at most one of the two channels is active, a
-- reconnection is timed only while none is, the status is connected only while one is, and a
-- closed connection has no channel and no timer and reports itself disconnected.
pub Reached-IsSound : (w : Setting) (p : Push) → Reached w p → IsSound p
unfolding start_event_push
Reached-IsSound w _ started = connect-IsSound w _ refl refl
Reached-IsSound w _ (handled e {p} r h) = handle-IsSound w e p h (Reached-IsSound w p r)
