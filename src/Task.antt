-- ===== src/Task.antt =====
-- internal/task: from a task's specification to a run in the store.
pub mod Filter
pub mod FilterLaws
pub mod Prompt
pub mod PromptLaws
pub mod Runner
pub mod RunnerLaws
pub mod RunEnds
pub mod RunTotal
pub mod RunFollows
pub mod Flight
pub mod Samples
mod Tests
