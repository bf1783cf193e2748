-- ===== src/Frontend/EventPush.antt =====
-- frontend/src/lib/eventPush.ts: the channel that pushes contract events to the user interface.
-- The closure's variables are a record, each handler is a function on it, and what the callbacks
-- are told is a log, newest first. Callbacks return and do not close the channel themselves.
pub mod Closing
pub mod Delays
pub mod Reach
use accord_protocol.Prelude.{
  ℕ, suc, ◌*◌, ◌^◌, max, Bool, true, false, not, ◌&&◌, ◌||◌, Option, none, some, List, [], ◌∷◌, ltb,
  ◌==◌, if◌then◌else◌,
}
use accord_protocol.Prelude.Text.{Text, codes, starts_with, includes}

pub data PushChannelStatus : Type 0 where
  connecting connected disconnected fallback : PushChannelStatus

-- What the callbacks `onStatusChange`, `onError` and `onEvent` are told.
pub data Report : Type 0 where
  status_changed : PushChannelStatus → Report
  failed delivered : Report

pub data Channel : Type 0 where
  event_source web_socket : Channel

-- The options, the two variables of the build, and what the browser offers.
pub record Setting : Type 0 where
  pub url : Text
  pub event_push_url : Text
  pub ws_url : Text
  pub use_sse : Bool
  pub reconnect_interval_ms : Option ℕ
  pub max_reconnect_interval_ms : Option ℕ
  pub offers : Channel → Bool
  -- Whether the constructor throws on an address.
  pub throws : Channel → Text → Bool

-- A delay in milliseconds that was halved: `numerator / 2 ^ halvings`.
pub record Delay : Type 0 where
  pub numerator : ℕ
  pub halvings : ℕ

pub record Push : Type 0 where
  pub delay : Delay
  pub timer : Bool
  pub socket : Bool
  pub source : Bool
  pub is_closed : Bool
  pub status : PushChannelStatus
  pub log : List Report

abbrev or_default : Option ℕ → ℕ → ℕ
or_default none d = d
or_default (some n) d = n

abbrev is_disconnected : PushChannelStatus → Bool
is_disconnected disconnected = true
is_disconnected _ = false

-- An empty text stands for an option or a variable that is not set.
abbrev non_empty : Text → Option Text → Option Text
non_empty [] next = next
non_empty (c ∷ s) next = some (c ∷ s)

abbrev resolve_url : Setting → Option Text
resolve_url w = non_empty w.url (non_empty w.event_push_url (non_empty w.ws_url none))

unfoldable pub is_sse : Setting → Text → Bool
unfolding includes
is_sse w url =
    w.use_sse
    || starts_with (codes "http://") url
    || starts_with (codes "https://") url
    || includes (codes "/sse") url
    || includes (codes "/events") url

abbrev pub initial_delay : Setting → ℕ
initial_delay w = max 500 (or_default w.reconnect_interval_ms 2000)

abbrev pub max_delay : Setting → ℕ
max_delay w = max (initial_delay w) (or_default w.max_reconnect_interval_ms 30000)

-- `Math.min(delay * 1.5, max)`.
unfoldable pub grow : ℕ → Delay → Delay
grow m d =
    if ltb (m * 2 ^ suc d.halvings) (d.numerator * 3)
    then record { numerator = m; halvings = 0 }
    else record { numerator = d.numerator * 3; halvings = suc d.halvings }

abbrev pub set_status : PushChannelStatus → Push → Push
set_status s p =
    if p.is_closed && not (is_disconnected s)
    then p
    else record p { status = s; log = status_changed s ∷ p.log }

abbrev pub report_error : Push → Push
report_error p = record p { log = failed ∷ p.log }

abbrev pub schedule_reconnect : Push → Push
schedule_reconnect p = if p.is_closed then p else record (set_status fallback p) { timer = true }

abbrev pub cleanup_active_connection : Push → Push
cleanup_active_connection p = record p { socket = false; source = false }

-- A channel that was constructed is the active one; a constructor that threw has reported so.
abbrev opened : Bool → Channel → Push → Push
opened true channel p = schedule_reconnect (report_error p)
opened false event_source p = record p { source = true }
opened false web_socket p = record p { socket = true }

abbrev open_channel : Setting → Channel → Text → Push → Push
open_channel w channel url p = opened (w.throws channel url) channel (set_status connecting p)

-- The choice between the two kinds of channel.
abbrev choose : Setting → Bool → Text → Push → Push
choose w sse url p =
    if sse && w.offers event_source
    then open_channel w event_source url p
    else (if w.offers web_socket then open_channel w web_socket url p else set_status fallback p)

abbrev connect_to : Setting → Option Text → Push → Push
connect_to w none p = set_status fallback p
connect_to w (some url) p = choose w (is_sse w url) url p

unfoldable pub connect : Setting → Push → Push
connect w p = if p.is_closed then p else connect_to w (resolve_url w) (cleanup_active_connection p)

-- What the browser calls, and the `close` of the caller.
pub data Event : Type 0 where
  on_open on_message source_on_error socket_on_error socket_on_close timer_fires close : Event

-- The handlers; each first asks whether the channel was closed.
unfoldable pub handle : Setting → Event → Push → Push
unfolding grow
handle w on_open p =
    if p.is_closed
    then p
    else set_status connected
        (record p { delay = record { numerator = initial_delay w; halvings = 0 } })
handle w on_message p = if p.is_closed then p else record p { log = delivered ∷ p.log }
handle w source_on_error p =
    if p.is_closed then p else schedule_reconnect (cleanup_active_connection (report_error p))
handle w socket_on_error p = if p.is_closed then p else report_error p
handle w socket_on_close p =
    if p.is_closed then p else schedule_reconnect (cleanup_active_connection p)
handle w timer_fires p =
    if p.is_closed
    then record p { timer = false }
    else connect w (record p { timer = false; delay = grow (max_delay w) p.delay })
handle w close p =
    set_status disconnected
      (cleanup_active_connection (record p { is_closed = true; timer = false }))

-- `startEventPush`: the first connection.
unfoldable pub start_event_push : Setting → Push
start_event_push w = connect w (record {
  delay = record { numerator = initial_delay w; halvings = 0 };
  timer = false;
  socket = false;
  source = false;
  is_closed = false;
  status = connecting;
  log = [];
})
