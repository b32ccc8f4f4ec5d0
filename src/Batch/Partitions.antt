-- ===== src/Batch/Partitions.antt =====
-- The months of `bat_cdp_06` of services/portal-backend/batch.py: for each offset the month whose
-- partition is created, and the first days where the partition starts and ends.
use api_portal.Prelude.{List, [], arith, ℕ, ◌%◌, ◌*◌, ◌+◌, ◌-◌, ◌/◌, ◌∷◌, ◌≡◌, ◌≤◌}

-- A first day of a month: the year and the month, from 1 to 12.
pub record Month : Type 0 where
  pub year : ℕ
  pub month : ℕ

pub record Partition : Type 0 where
  pub start : Month
  pub stop : Month

unfoldable pub partition_for : Month → ℕ → Partition
partition_for today offset =
    let month = today.month + offset in
    let year = today.year + (month - 1) / 12 in
    let month' = (month - 1) % 12 + 1 in
    record {
      start = record { year = year; month = month' };
      stop = record { year = year + month' / 12; month = month' % 12 + 1 };
    }

-- The partitions of one run.
unfoldable pub bat_cdp_06 : Month → List Partition
unfolding partition_for
bat_cdp_06 today = partition_for today 1 ∷ partition_for today 2 ∷ []

-- Months since the year 0.
abbrev pub index : Month → ℕ
index m = m.year * 12 + (m.month - 1)

abbrev pub IsMonth : Month → Type 0
IsMonth m = (1 ≤ m.month) × (m.month ≤ 12)

-- For a date in a real month, the partition of an offset starts in the month that lies that many
-- months ahead and ends in the month after it, and both are months from 1 to 12.
pub partition_for_lem :
    (today : Month) (offset : ℕ)
    → IsMonth today
    → (index (partition_for today offset).start ≡ index today + offset)
      × (index (partition_for today offset).stop ≡ index today + offset + 1)
      × IsMonth (partition_for today offset).start
      × IsMonth (partition_for today offset).stop
unfolding partition_for
partition_for_lem today offset h =
    (omega arith, omega arith, (omega arith, omega arith), (omega arith, omega arith))

-- The partitions of one run cover the two months after the current one without gap or overlap.
pub bat_cdp_06_adjacent :
    (today : Month) → (partition_for today 1).stop ≡ (partition_for today 2).start
unfolding partition_for
bat_cdp_06_adjacent today = ground arith
