-- ===== src/Scheduler.antt =====
-- scheduler/trigger.py: the supervisor of one signal, the adoption of a signal after a restart and
-- the timeout of a stage that passed while the process was down.
pub mod World
pub mod Limits
pub mod Stages
pub mod Supervisor
pub mod Triple
pub mod Shows
pub mod Ladder
pub mod Landing
mod Firing
mod Results
pub mod Cascade
pub mod Adopt
pub mod Runs
pub mod AuthError
pub mod NoWins
pub mod Unwon
pub mod Verdict
mod Played
pub mod Ends
