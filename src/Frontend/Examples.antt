-- ===== src/Frontend/Examples.antt =====
-- The front end's theorems at concrete inputs, over a storage and a browser that are written out.
mod Stores
use accord_protocol.Prelude.Sort.{insert, sort}
use accord_protocol.Prelude.Int.{pos, ◌+ℤ◌, ◌-ℤ◌}
use accord_protocol.Frontend.ContractEvents.{
  ContractEvent, WeightHistoryPoint, canonical_event_key, first_events, dedupe_contract_events,
  resolve_event_type, recurring_payment_paused, reconstruct_total_weight_history,
}
use accord_protocol.Frontend.ContractEvents.Keys.{canonical_event_key_iff}
use accord_protocol.Frontend.ContractEvents.Deduped.{Deduped, dedupe_contract_events-Deduped}
use accord_protocol.Prelude.{
  length, ◌≤◌, String, map, ◌↔◌, ℕ, ◌==◌, if◌then◌else◌, ◌≡◌, refl, true, false, Option, none, some,
  List, [], ◌∷◌, ◌++◌, All, arith,
}
use accord_protocol.Prelude.Text.{codes, decimal, decimal_fuel, is_space}
use accord_protocol.ContractPattern.Found.{HasNoParen, IsSpace, spelled}
use accord_protocol.Sdk.Errors.{ContractError, error_code}
use accord_protocol.Frontend.ContractErrors.{contract_errors, message_of}
use accord_protocol.Frontend.EventPush.{
  Setting, Push, on_open, on_message, timer_fires, close, initial_delay, max_delay, handle,
  start_event_push, connect, is_sse,
}
use accord_protocol.Frontend.EventPush.Reach.{Reached, started, handled, IsSound, Reached-IsSound}
use accord_protocol.Frontend.EventPush.Delays.{IsWithin, Reached-IsWithin}
use accord_protocol.Frontend.EventPush.Closing.{closing_reports, handle_all, handle_all-silent}
use accord_protocol.Frontend.LocalStorage.{LocalStorage}
use accord_protocol.Frontend.Notifications.{
  NotificationRecord, State, get_notifications, proposal_ready, mark_notification_read,
  persist as persist_log,
}
use accord_protocol.Frontend.Notifications.Bounded.{
  mark, Described, perform, IsBounded, perform-Described,
}
use accord_protocol.Frontend.AddressBook.{
  AddressBookEntry, find_address, saved, get_address_book, save_address_book_entry,
  update_address_book_entry, persist, patch_first,
}
use accord_protocol.Frontend.AddressBook.Distinct.{HoldsDistinct, save_address_book_entry-found}
use accord_protocol.Frontend.Submission.{
  Outcome, returned, threw, with_submission_retry, is_network_submission_error, is_wallet_rejection,
  map_submission_error,
}
use accord_protocol.Frontend.Submission.Retries.{
  IsExplained, Failing, IsReturned, with_submission_retry-IsExplained,
  with_submission_retry-IsReturned,
}
use accord_protocol.Frontend.Submission.Texts.{map_submission_error-known}
use accord_protocol.Frontend.Polling
use accord_protocol.Frontend.Polling.{Poll, first_run, start_polling}
use accord_protocol.Frontend.Polling.Serial
use accord_protocol.Frontend.Polling.Serial.{IsSerial, Reached-IsSerial}

read_back : {A : Type 0} (t : Option A) (a : A) → some (some a) ≡ some t → t ≡ some a
read_back t a h = cc h

-- A storage that takes every write.
abbrev memory : (A : Type 0) → LocalStorage A
memory A = record {
  Store = Option A;
  read = λ s. s;
  write = λ s a. some (some a);
  read-write = λ s t a h. read_back t a h;
}

abbrev browser : Setting
browser = record {
  url = codes "wss://push";
  event_push_url = [];
  ws_url = [];
  use_sse = false;
  reconnect_interval_ms = none;
  max_reconnect_interval_ms = none;
  offers = λ c. true;
  throws = λ c url. false;
}

abbrev open_push : Push
open_push = handle browser on_open (start_event_push browser)

test_before : HasNoParen (codes "HostError: ")
test_before = ground arith

test_spaces : All IsSpace (codes " ")
unfolding is_space
test_spaces = ground arith

test_open : Reached browser open_push
unfolding handle start_event_push connect is_sse
test_open = handled on_open started refl

Reached-IsSound_example : IsSound open_push
Reached-IsSound_example = Reached-IsSound browser open_push test_open

Reached-IsWithin_example : IsWithin (initial_delay browser) (max_delay browser) open_push.delay
Reached-IsWithin_example = Reached-IsWithin browser open_push test_open

handle_all-silent_example :
    (handle_all browser
      (on_message ∷ timer_fires ∷ close ∷ [])
      (handle browser close open_push)).log
    ≡ closing_reports (on_message ∷ timer_fires ∷ close ∷ []) (handle browser close open_push).log
handle_all-silent_example =
    handle_all-silent browser (on_message ∷ timer_fires ∷ close ∷ []) open_push

abbrev notices : LocalStorage (List NotificationRecord)
notices = memory (List NotificationRecord)

abbrev notice : String → NotificationRecord
notice id = record {
  id = id;
  type_ = proposal_ready;
  title = "Ready";
  body = "";
  created_at = "";
  read = false;
}

abbrev two_notices : State notices
two_notices = record { store = some (notice "1" ∷ notice "2" ∷ []); emitted = 0 }

test-IsBounded : IsBounded notices two_notices
test-IsBounded = omega arith

test_written :
    (ns : List NotificationRecord)
    → length ns ≤ 100
    → (t : Option (List NotificationRecord)) × (notices.write two_notices.store ns ≡ some t)
test_written ns h = (some ns, refl)

test_marked :
    get_notifications notices (perform notices (mark "2") two_notices)
    ≡ notice "1" ∷ record (notice "2") { read = true } ∷ []
unfolding perform mark_notification_read persist_log
test_marked = refl

perform-Described_example :
    Described
      (mark "2")
      (get_notifications notices two_notices)
      (get_notifications notices (perform notices (mark "2") two_notices))
perform-Described_example =
    perform-Described notices (mark "2") two_notices test_written test-IsBounded

abbrev book : LocalStorage (List AddressBookEntry)
book = memory (List AddressBookEntry)

abbrev entries : List AddressBookEntry
entries =
    record { id = "A-1"; name = "Ann"; address = "A" }
    ∷ record { id = "B-2"; name = "Bob"; address = "B" }
    ∷ []

-- A patch of an address can bring two entries to the same one.
test_same_address :
    get_address_book book (
      update_address_book_entry book "B-2"
        (record { name = none; address = some "A" })
        (some entries))
    ≡ record { id = "A-1"; name = "Ann"; address = "A" }
      ∷ record { id = "B-2"; name = "Bob"; address = "A" }
      ∷ []
unfolding update_address_book_entry persist patch_first
test_same_address = refl

test_distinct : HoldsDistinct book none
test_distinct = tt

save_address_book_entry-found_example :
    find_address "A"
      (get_address_book book (save_address_book_entry book "A-9" "Anna" "A" (some entries)).1)
    ≡ some (save_address_book_entry book "A-9" "Anna" "A" (some entries)).0
save_address_book_entry-found_example =
    save_address_book_entry-found book "A-9" "Anna" "A" (some entries)
      (some (saved (find_address "A" entries) "A-9" "Anna" "A" entries).1) refl

-- The network fails twice, and then the call goes through.
abbrev flaky : ℕ → Outcome ℕ
flaky n = if n == 3 then returned 7 else threw (codes "timeout")

test-Failing : Failing flaky 1000 1 2
unfolding is_network_submission_error
test-Failing = ((codes "timeout", refl, refl), ((codes "timeout", refl, refl), tt))

with_submission_retry-IsReturned_example :
    IsReturned flaky 1000 7 3 (with_submission_retry flaky none none)
with_submission_retry-IsReturned_example =
    with_submission_retry-IsReturned flaky none none 2 7 (omega arith) test-Failing refl

with_submission_retry-IsExplained_example :
    IsExplained flaky 1000 1 3 (with_submission_retry flaky none none)
with_submission_retry-IsExplained_example = with_submission_retry-IsExplained flaky none none

test_accepted :
    is_wallet_rejection (
      codes "HostError: "
      ++ spelled (codes " ") (decimal (error_code ContractError.already_approved)) [])
    ≡ false
unfolding is_wallet_rejection decimal
test_accepted = refl

map_submission_error-known_example :
    map_submission_error (
      codes "HostError: "
      ++ spelled (codes " ") (decimal (error_code ContractError.already_approved)) [])
    ≡ message_of contract_errors (decimal (error_code ContractError.already_approved))
map_submission_error-known_example =
    map_submission_error-known ContractError.already_approved (codes "HostError: ") (codes " ") []
      test_before test_spaces test_accepted

abbrev polled : Poll
polled = Polling.handle Polling.Event.begins (first_run 5000)

test_polled : Serial.Reached 5000 polled
unfolding start_polling
test_polled = Serial.handled Polling.Event.begins (Serial.started refl) (omega arith)

Reached-IsSerial_example : IsSerial 5000 polled
Reached-IsSerial_example = Reached-IsSerial 5000 polled test_polled

-- Two reports of one event, and an earlier event.
abbrev contract_event : ℕ → ℕ → ContractEvent String
contract_event ledger index = record {
  ledger = ledger;
  tx_hash = codes "ab:1";
  event_index = index;
  payload = "approved";
}

abbrev contract_events : List (ContractEvent String)
contract_events = contract_event 12 3 ∷ contract_event 12 3 ∷ contract_event 9 30 ∷ []

test_deduped :
    dedupe_contract_events (λ a b. false) contract_events
    ≡ contract_event 9 30 ∷ contract_event 12 3 ∷ []
unfolding dedupe_contract_events first_events canonical_event_key decimal decimal_fuel insert sort
test_deduped = refl

test_resolved :
    resolve_event_type (codes "schedule_x") (codes "paused_by") ≡ some recurring_payment_paused
unfolding resolve_event_type
test_resolved = refl

test_history :
    map
      (λ (p : WeightHistoryPoint ℕ). p.total_weight)
      (reconstruct_total_weight_history
        (λ t. none)
        0
        (record {
          old_weight = pos 5;
          new_weight = pos 0;
          new_total_weight = none;
          ledger = none;
          timestamp = [];
        }
          ∷ [])
        (pos 3))
    ≡ pos 0 ∷ []
unfolding reconstruct_total_weight_history ◌+ℤ◌ ◌-ℤ◌
test_history = refl

canonical_event_key_iff_example :
    (canonical_event_key (contract_event 12 3) ≡ canonical_event_key (contract_event 1 23))
    ↔ ((◌≡◌ {A = ℕ} 12 1) × (codes "ab:1" ≡ codes "ab:1") × (◌≡◌ {A = ℕ} 3 23))
canonical_event_key_iff_example =
    canonical_event_key_iff (contract_event 12 3) (contract_event 1 23)

dedupe_contract_events-Deduped_example :
    Deduped contract_events (dedupe_contract_events (λ a b. false) contract_events)
dedupe_contract_events-Deduped_example =
    dedupe_contract_events-Deduped (λ a b. false) contract_events
