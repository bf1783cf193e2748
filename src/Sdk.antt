-- ===== src/Sdk.antt =====
-- packages/sdk: the TypeScript client of the contract.
pub mod Examples
pub mod Failure
pub mod Errors
pub mod Stellar
pub mod Validation
pub mod Types
pub mod Conversion
pub mod Client
