-- ===== src/Gitops.antt =====
-- src/gitops: deployment evidence and the sandbox of the validator.
pub mod Health
pub mod Image
pub mod Candidate
pub mod Receipt
pub mod Jobs
