-- ===== src/Hours.antt =====
-- app/hours/hours-core.js, the learner's log of hours and contributions. A text is the list of its code
-- units, and hours are counted in tenths.
pub mod Csv
pub mod Merge
mod Examples
use sonsteng_magnum_opus.Prelude.{ℕ, ◌-◌, Bool, List, leb, if◌then◌else◌}

abbrev pub Units : Type 0
Units = List ℕ

-- A difference of hours, `minus` being below zero.
pub data Tenths : Type 0 where
  plus minus : ℕ → Tenths

-- `+(worked - billable).toFixed(1)`
abbrev pub difference : ℕ → ℕ → Tenths
difference a b = if leb b a then plus (a - b) else minus (b - a)

pub record HoursEntry : Type 0 where
  pub id : Units
  pub date : Units
  pub project : Units
  pub matter : Units
  pub activity : Units
  pub worked_hours : ℕ
  pub billable_hours : ℕ
  pub class_time : Bool
  pub narrative : Units

pub record Contribution : Type 0 where
  pub id : Units
  pub deliverable_id : Units
  pub deliverable_title : Units
  pub contribution_date : Units
  pub contribution_type : Units
  pub description : Units
  pub related_entry_ids : List Units

pub record HoursLog : Type 0 where
  pub learner_id : Units
  pub offering_id : Units
  pub week_start : Units
  pub week_end : Units
  pub entries : List HoursEntry
  pub contribution_log : List Contribution
