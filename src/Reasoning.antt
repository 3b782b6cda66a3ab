-- ===== src/Reasoning.antt =====
-- src/reasoning: the advisory reasoning core.
pub mod Budget
pub mod Roles
pub mod Router
pub mod Coordinator
pub mod Incident
pub mod Journal
pub mod Storage
pub mod Evidence
pub mod Tools
pub mod Contracts
pub mod Dispatcher
