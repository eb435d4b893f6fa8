-- ===== src/Service/Backfill.antt =====
-- src/optimiser/service.py: the backfill of the settled usage. A date is its number of days; the
-- answer to a request is an argument, by the first and the last day that it asks for.
pub mod Complete
use energy_optimiser.Prelude.{
  ℕ, zero, suc, ap, subst, sym, ◌+◌, ◌-◌, ◌*◌, ◌≤◌, ◌<◌, ◌≡◌, ◌⊎◌, inl, inr, refl, Bool, true,
  false, Option, none, some, List, [], ◌∷◌, ◌++◌, arith, if◌then◌else◌, leb, length, Bool-cases,
}
use energy_optimiser.Lp.Fallback.{Attempt, returned, raised}

-- A row, of which the service reads the day.
pub record AmberUsageRow : Type 0 where
  pub nem_date : ℕ

abbrev pub amber_usage_backfill_days : ℕ
amber_usage_backfill_days = 30

-- `latest_amber_usage_date`: no row, a text that is no date, or a date.
pub data Latest : Type 0 where
  no_rows unparseable : Latest
  date : ℕ → Latest

unfoldable pub start_of : Latest → ℕ → ℕ
start_of (date d) yesterday_nem = d + 1
start_of _ yesterday_nem = yesterday_nem - (amber_usage_backfill_days - 1)

-- What a run did: the days that were asked for, what was written, and whether a request raised.
pub record Backfill : Type 0 where
  pub requests : List (ℕ × ℕ)
  pub written : List AmberUsageRow
  pub failed : Bool

abbrev pub Answers : Type 0
Answers = ℕ → ℕ → Attempt (List AmberUsageRow)

-- `min(cur + timedelta(days=6), yesterday_nem)`
abbrev pub chunk_end : ℕ → ℕ → ℕ
chunk_end cur yesterday_nem = if leb (cur + 6) yesterday_nem then cur + 6 else yesterday_nem

abbrev pub done : Backfill
done = record { requests = []; written = []; failed = false }

-- The rest of the loop after a request: none if the fuel runs out.
abbrev pub requested : ℕ × ℕ → Attempt (List AmberUsageRow) → Option Backfill → Option Backfill
requested window raised rest = some (record { requests = window ∷ []; written = []; failed = true })
requested window (returned rows) none = none
requested window (returned rows) (some r) =
    some (record { requests = window ∷ r.requests; written = rows ++ r.written; failed = r.failed })

-- The loop, with at most as many requests as there is fuel.
unfoldable pub backfill_from : Answers → ℕ → ℕ → ℕ → Option Backfill
backfill_from get yesterday_nem zero cur = if leb cur yesterday_nem then none else some done
backfill_from get yesterday_nem (suc fuel) cur =
    let end = chunk_end cur yesterday_nem in
    let rest = backfill_from get yesterday_nem fuel (end + 1) in
    if leb cur yesterday_nem then requested (cur, end) (get cur end) rest else some done

unfoldable pub backfill_amber_usage : Answers → Latest → ℕ → ℕ → Option Backfill
unfolding start_of
backfill_amber_usage get latest yesterday_nem fuel =
    backfill_from get yesterday_nem fuel (start_of latest yesterday_nem)

-- The day after the last one that was asked for.
abbrev pub reached : ℕ → List (ℕ × ℕ) → ℕ
reached cur [] = cur
reached cur ((first, last) ∷ rest) = reached (last + 1) rest

-- Requests without a gap or an overlap, each for one to seven days that are settled.
abbrev pub IsSeamless : ℕ → ℕ → List (ℕ × ℕ) → Type 0
IsSeamless yesterday_nem cur [] = Unit
IsSeamless yesterday_nem cur ((first, last) ∷ rest) =
    (first ≡ cur)
    × (first ≤ last)
    × (last < first + 7)
    × (last ≤ yesterday_nem)
    × IsSeamless yesterday_nem (last + 1) rest

-- What the answers contain.
abbrev pub rows_of : Attempt (List AmberUsageRow) → List AmberUsageRow
rows_of (returned rows) = rows
rows_of raised = []

abbrev pub all_rows : Answers → List (ℕ × ℕ) → List AmberUsageRow
all_rows get [] = []
all_rows get ((first, last) ∷ rest) = rows_of (get first last) ++ all_rows get rest

-- A run from a day on: it reaches today unless a request raised, and writes what it got.
pub record IsComplete (get : Answers) (yesterday_nem fuel cur : ℕ) (r : Backfill) : Type 0 where
  pub seamless : IsSeamless yesterday_nem cur r.requests
  pub bounded : length r.requests ≤ fuel
  pub reaches : (r.failed ≡ true) ⊎ (yesterday_nem < reached cur r.requests)
  pub writes : r.written ≡ all_rows get r.requests
