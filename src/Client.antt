-- ===== src/Client.antt =====
-- The TypeScript client, clients/typescript/src.
pub mod Types
pub mod Inputs
pub mod Validators
pub mod Generated
pub mod Overlay
pub mod Delegations
pub mod Plans
pub mod Plugin
pub mod Live
pub mod HookMetas
pub mod Hook
pub mod Transfers
pub mod Accounts
pub mod Queries
