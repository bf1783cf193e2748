-- ===== src/Frontend/Notifications.antt =====
-- frontend/src/lib/notificationCenter.ts: the log of notifications. The clock, the random part of an
-- id and the texts of dates are arguments.
pub mod Bounded
use accord_protocol.Prelude.{
  ℕ, ◌+◌, String, Bool, true, false, Option, none, some, List, [], ◌∷◌, map, take, str_eq,
  if◌then◌else◌,
}
use accord_protocol.Frontend.LocalStorage.{LocalStorage}

-- `NotificationEventType` of frontend/src/lib/notificationPreferences.ts.
pub data NotificationEventType : Type 0 where
  proposal_created proposal_approved proposal_ready : NotificationEventType
  proposal_executed owner_weight_changed : NotificationEventType

pub record NotificationRecord : Type 0 where
  pub id : String
  pub type_ : NotificationEventType
  pub title : String
  pub body : String
  pub created_at : String
  pub read : Bool

abbrev pub max_entries : ℕ
max_entries = 100

abbrev pub read_one : String → NotificationRecord → NotificationRecord
read_one id n = if str_eq n.id id then record n { read = true } else n

abbrev pub read_it : NotificationRecord → NotificationRecord
read_it n = record n { read = true }

module _ (storage : LocalStorage (List NotificationRecord)) where
  open storage use {Store}

  -- The stored item, and how often the listeners were called.
  pub record State : Type 0 where
    pub store : Store
    pub emitted : ℕ

  abbrev or_empty : Option (List NotificationRecord) → List NotificationRecord
  or_empty none = []
  or_empty (some records) = records

  abbrev pub get_notifications : State → List NotificationRecord
  get_notifications s = or_empty (storage.read s.store)

  abbrev or_store : Option Store → Store → Store
  or_store none s = s
  or_store (some t) s = t

  unfoldable pub persist : List NotificationRecord → State → State
  persist records s = record {
    store = or_store (storage.write s.store (take max_entries records)) s.store;
    emitted = s.emitted + 1;
  }

  unfoldable pub add_notification :
      (type_ : NotificationEventType) (title body id created_at : String)
      → State
      → NotificationRecord × State
  add_notification type_ title body id created_at s =
      let entry : NotificationRecord = record {
        id = id;
        type_ = type_;
        title = title;
        body = body;
        created_at = created_at;
        read = false;
      } in
      (entry, persist (entry ∷ get_notifications s) s)

  unfoldable pub mark_notification_read : String → State → State
  mark_notification_read id s = persist (map (read_one id) (get_notifications s)) s

  unfoldable pub mark_all_notifications_read : State → State
  mark_all_notifications_read s = persist (map read_it (get_notifications s)) s

  unfoldable pub clear_notifications : State → State
  clear_notifications s = persist [] s
