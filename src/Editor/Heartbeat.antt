-- ===== src/Editor/Heartbeat.antt =====
-- The apply daemon's heartbeat of app/worker/src/editor-store-core.js: one row, and its age on the
-- server's clock. A number that is not finite is `none`.
use sonsteng_magnum_opus.Prelude.{
  ℕ, ◌+◌, ◌-◌, ◌*◌, ◌/◌, ◌≤◌, ◌<◌, ◌≡◌, Bool, Option, none, some, arith, nat_beq, if◌then◌else◌,
}
use sonsteng_magnum_opus.Prelude.Value.{Value, nat}

pub record Heartbeat : Type 0 where
  pub ok : Bool
  pub applied : Value
  pub ts : Value
  pub received_at : ℕ

abbrev pub finite_or : Option Value → Value → Value
finite_or none d = d
finite_or (some v) d = v

-- The beacon's row after the upsert, whatever row was there.
unfoldable pub record_heartbeat :
    ℕ → Bool → Option Value → Option Value → Option Heartbeat → Option Heartbeat
record_heartbeat now ok applied ts row = some (record {
  ok = ok;
  applied = finite_or applied (nat 0);
  ts = finite_or ts (nat now);
  received_at = now;
})

-- `Math.max(0, Math.round((now - received_at) / 1000))`
unfoldable pub heartbeat_age_s : ℕ → Option Heartbeat → Option ℕ
heartbeat_age_s now none = none
heartbeat_age_s now (some row) =
    if nat_beq row.received_at 0 then none else some (((now - row.received_at) + 500) / 1000)

-- After a heartbeat at a time other than 0, the age is that of this heartbeat on the server's clock,
-- to the nearest second and 0 where the clock went back, whatever the daemon's own time stamp and
-- the row before were.
pub heartbeat_age-record :
    (sent now : ℕ) (ok : Bool) (applied ts : Option Value) (row : Option Heartbeat)
    → 0 < sent
    → (a : ℕ) × (heartbeat_age_s now (record_heartbeat sent ok applied ts row) ≡ some a)
      × (1000 * a ≤ (now - sent) + 500)
      × ((now - sent) + 500 < 1000 * a + 1000)
unfolding heartbeat_age_s record_heartbeat
heartbeat_age-record sent now ok applied ts row h =
    (((now - sent) + 500) / 1000, ground arith, omega arith, omega arith)
