-- ===== src/Examples.antt =====
-- The theorems at concrete inputs.
mod Group
mod GroupMemory
mod Distillation
mod Extraction
mod History
mod Session
mod Manager
mod Summaries
mod Turns
mod Persistence
mod Planner
mod Security
