-- ===== src/Panel.antt =====
-- The formative memo panel: app/worker/src/panel.js.
pub mod Median
pub mod Aggregate
mod Examples
