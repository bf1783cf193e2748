-- ===== src/Sdk/Client.antt =====
-- packages/sdk/src/client.ts: `AccordClient`.
pub mod Call
pub mod Governance
pub mod Recurring
pub mod Lifecycle
pub mod Administration
pub mod Request
pub mod Checked
pub mod Proposed
pub mod Transaction
pub mod View
