-- ===== src/Assessment.antt =====
-- The memo assessment's inputs and checks: app/worker/src/assessment-config.js and the memo scorecard
-- of app/worker/src/validate.js.
pub mod Config
pub mod Memo
pub mod Debrief
pub mod Graded
mod Examples
