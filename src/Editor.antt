-- ===== src/Editor.antt =====
-- The suggestion store of the site editor: app/worker/src/editor-store-core.js and
-- editor-status.js.
pub mod Status
pub mod Rows
pub mod Suggest
pub mod Decide
pub mod Batches
pub mod Requests
pub mod Heartbeat
pub mod Trace
mod Examples
