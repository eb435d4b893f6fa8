-- ===== src/Lp/Solution.antt =====
-- src/optimiser/lp/result.py and types.py: what the solver returns to the service. The expected cost,
-- the time and the reason are left out.
use Prim.Native.String.{String}
use energy_optimiser.Prelude.{Bool, Option, List, ℤ}
use energy_optimiser.Lp.Dispatch.{SlotDecision}

pub data SolveStatus : Type 0 where
  optimal feasible infeasible unbounded timeout error : SolveStatus

pub record LoadCommand : Type 0 where
  pub load_id : String
  pub start_cycle : Bool
  pub desired_relay_on : Option Bool

pub record LpSolution : Type 0 where
  pub status : SolveStatus
  pub slot_0 : Option SlotDecision
  pub forward_trajectory : List SlotDecision
  pub load_commands : List LoadCommand
  pub grid_export_limit_kw : Option ℤ
