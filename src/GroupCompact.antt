-- ===== src/GroupCompact.antt =====
-- internal/llm/session.go: the buffer of group messages that await compaction.
pub mod Message
pub mod Buffer
pub mod State
pub mod Ingest
pub mod Compact
pub mod Revoke
pub mod Distill
pub mod Guard
pub mod Ops
pub mod Invariant
pub mod Counter
pub mod Commit
pub mod Refusal
pub mod Revoked
pub mod Append
pub mod Rollback
pub mod Once
pub mod Recent
