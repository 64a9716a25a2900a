-- ===== src/Hub.antt =====
-- gpf/controller/hub.{hpp,cpp} and what it keeps.
pub mod Messages
pub mod State
pub mod Registration
pub mod Tasks
pub mod Queries
pub mod Dispatch
pub mod System
pub mod Names
pub mod Ids
pub mod Account
pub mod Standing
pub mod Ledger
pub mod Served
pub mod Confirmation
