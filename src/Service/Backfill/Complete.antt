-- ===== src/Service/Backfill/Complete.antt =====
-- The backfill of the usage ends, and asks for every day once.
use energy_optimiser.Prelude.{ℕ, ◌≡◌, Option, some}
use energy_optimiser.Service.Backfill.{Backfill, Answers, IsComplete}

module _ (get : Answers) (yesterday_nem : ℕ) where
  -- A run that ends.
  abbrev pub Finished : ℕ → ℕ → Option Backfill → Type 0
  Finished fuel cur o = (r : Backfill) × (o ≡ some r) × IsComplete get yesterday_nem fuel cur r
