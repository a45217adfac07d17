-- ===== src/Lib.antt =====
-- FrostAgent: the state that a chat session keeps (internal/llm/session.go, sequence.go), the
-- manager that keeps the sessions, the store of group summaries (internal/groupsummary/store.go),
-- the workers that write to it (internal/llm/group_compactor.go), the memories of a group
-- (internal/memory/group_store.go), and the watchdog that every message passes (internal/security).
--
-- FrostAgent is a chat bot. For each group or private chat a SessionContext keeps what the bot knows
-- of the conversation. Its methods are called by the adapters (new messages), by the engine (answers),
-- by background goroutines (summaries and memory extraction) and by moderation (drops and resets).
-- Each method takes the session's lock, so a session is modelled as a state with one function for
-- each method, and what happens to it as a list of calls. The one part where goroutines interleave
-- without the lock, the commit barriers, is a state machine whose steps are listed in any order.
--
-- The files:
--   Prelude, Text: numbers, lists, association lists and strings. A string is the list of its code
--     points; a uint64 is a native number with its wrap-around written out (`u64`).
--   Barrier: barrierState. Barrier/Distillation is groupDistillationBarrier, Barrier/Extraction is
--     sessionExtractionBarrier: TryBeginCommit, EndCommit, Close, AbortAndWait, IsValid.
--   GroupCompact: the compaction of a group chat. Message has GroupCompactMessage, its parser and its
--     display; Buffer the slots of groupCompactBuffer; State the session's fields; Ingest the methods
--     that append and promote; Compact SnapshotGroupCompact, CommitGroupCompactWithPersistence and the
--     resets; Revoke DropGroupCompactSlotChecked; Distill BeginGroupDistillation; Guard
--     StagedGroupCompactGuard; Recent the windows of SnapshotGroupContext; Ops all calls as one type.
--   History: the history with its numbers (historySeq) and, in History/Private, the compaction of a
--     private chat (SnapshotPrivateCompact, CommitPrivateCompact). History/Calls has all calls as one
--     type, with the inputs of PrepareTurnMessages and the direct assignment of RunWithSession
--     (internal/llm/agent.go); History/Numbering the states that they reach.
--   PendingTurns: EnqueuePendingTurn.
--   BotLoop: BeginBotLoop and FinishWithAdmission.
--   Sessions: SessionManager, which finds or makes the session of a conversation. Sessions/Keys has
--     the canonical keys and aliases of internal/memory/owner_type.go.
--   Summaries: the store of internal/groupsummary/store.go. Summaries/Ids has its canonical ids;
--     Summaries/Board what the store is for its callers, a summary and a deletion epoch for each
--     group, with the steps that this board may make.
--   Turns: the lanes of internal/llm/sequence.go. Turns has the reservation and the end of a turn,
--     Turns/Prepare PrepareTurnMessages and saveTranscript, Turns/Steps the steps in any order,
--     a Done before Wait, as the adapters call it where they give a turn up, among them; the theorems
--     are about the states without such a step.
--     Turns/Chain states the order in the lanes for itself, Turns/Shapes and Turns/Queue connect it
--     with the operations.
--   Persistence: queuePersistence, RollbackPersistence and persistWorker of
--     internal/llm/group_compactor.go, which bring a summary to that store. Persistence/Log has every
--     interleaving of calls and workers, Persistence/Races two orders that go wrong.
--   Planner: when the compaction of a conversation starts (TriggerWithScope, ForceCompact, the timers
--     of scheduleTriggerLocked) and how it ends (compact), of the same file. Planner/Steps has every
--     order of calls, timers and goroutines, Planner/Sound what each of them keeps, Planner/Outcome the
--     ways out of compact.
--   Security: internal/security. Access has the strikes and locks of AccessStore, Audit the audit
--     log and what the surroundings do, Watchdog evaluateWithContext with Judge for the
--     classifications and Response for what follows from them, and Gate the controller, through which
--     every message passes.
--   GroupMemory: the memories of a group in internal/memory. Same says when two memories are one
--     (isSameGroupMemory); Save has SaveGroupEntriesConditionallyContext, Edit the purge, the edits,
--     the import and the reads, Merging and Reflect applyReflectionWithMerges. Forgotten puts them
--     together with the session: its steps are what may happen to the memories behind the drop of a
--     message. GroupCompact takes the answer of the purge as an argument; GroupMemory/Edit has the
--     purge itself.
--   Examples: the theorems at concrete inputs.
--
-- SessionContext has one record here for each of its parts; Clear and ResetSession, which touch all
-- of them, have one function for each part.
--
-- Bounds: every loop of the code but one goes along a list. The loop of an injection over the turns
-- before (cancel_chain) runs on fuel, as many rounds as turns were ever reserved; Turns/Interrupt is
-- about its end. The loop that draws an id until no memory has it is an argument. Theorems on sequence
-- numbers and generations assume that a 64-bit counter does not wrap; each says so in its
-- hypotheses.
--
-- Not modelled: the language models, the network, SQL and files. What the code relies on of them is an
-- argument: the answer of the group store's PurgeDistilledEntries, the answer of the persist callback,
-- the draws of math/rand, fmt.Sprint of content parts, and the time of each call. AbortAndWait waits
-- for a channel; as a part of another call it is modelled as returning behind the writer's EndCommit,
-- and Barrier shows both goroutines. Of internal/security the language model's classifier and the
-- normalisation of a content, and of internal/memory the SQL store, generated ids and the model that
-- proposes memories and merges, are arguments or left out. Methods on a nil pointer are
-- left out: each returns at once.
mod Prelude
pub mod Text
pub mod Barrier
pub mod GroupCompact
pub mod History
pub mod PendingTurns
pub mod BotLoop
pub mod Sessions
pub mod Summaries
pub mod Turns
pub mod Persistence
pub mod Planner
pub mod Security
pub mod GroupMemory
mod Examples
