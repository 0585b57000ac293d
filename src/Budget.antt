-- ===== src/Budget.antt =====
-- app/worker/src/budget-core.js and cost.js: the spend and turn accounting of the Worker.
pub mod Cost
pub mod Store
pub mod Turns
pub mod OneShot
pub mod Mints
pub mod Cover
pub mod Trace
mod Examples
