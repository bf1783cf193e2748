-- ===== src/Frontend.antt =====
-- The logic of the front end's lib (frontend/src/lib).
pub mod AddressBook
pub mod ContractErrors
pub mod ContractEvents
pub mod EventPush
pub mod Examples
pub mod LocalStorage
pub mod Notifications
pub mod Polling
pub mod Submission
pub mod Templates
pub mod OwnerLabels
pub mod Changelog
