-- ===== src/Scheduler.antt =====
-- The cron dispatcher: its model, and what it promises about the entries of the tasks.
pub mod Cron
pub mod Model
pub mod Entries
pub mod SetTask
pub mod RegisterAll
pub mod Hydrate
pub mod Ticks
pub mod Slots
mod Tests
