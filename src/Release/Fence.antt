-- ===== src/Release/Fence.antt =====
-- The fencing token of a production release of app/worker/src/editor-store-core.js: after a claim, only
-- the worker that was given its token moves the release or renews its lease.
use sonsteng_magnum_opus.Prelude.{◌≡◌, Option, some, string_eq}
use sonsteng_magnum_opus.Release.{Release, Answer, done}
use sonsteng_magnum_opus.Release.Trace.{Runtime}

module _ (env : Runtime) where
  abbrev NotDone : Option Answer → Type 0
  NotDone o = o ≡ some done → ⊥
