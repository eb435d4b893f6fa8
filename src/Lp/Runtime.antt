-- ===== src/Lp/Runtime.antt =====
-- src/optimiser/lp/runtime.py: what the tick loop and the watcher share. Each method runs under
-- the lock and has no suspension inside, so it is one step. `now` is in microseconds.
use energy_optimiser.Prelude.{
  ℕ, Bool, true, false, ◌&&◌, Option, none, some, ℤ, pos, sub_ℕ, ltb_ℤ, not,
}
use energy_optimiser.Lp.Dispatch.{LpDispatch}

pub data FallbackReason : Type 0 where
  lp_timeout lp_infeasible lp_error lp_build_failed verify_deviation : FallbackReason
  solver_unavailable no_reason : FallbackReason

pub record CommandedState : Type 0 where
  pub dispatch : LpDispatch
  pub write_timestamp : ℕ

pub record CircuitBreaker : Type 0 where
  pub latched : Bool
  pub latched_at : Option ℕ
  pub cooldown : ℕ
  pub consecutive_deviations : ℕ
  pub consecutive_clean_probes : ℕ
  pub deviation_threshold_count : ℕ
  pub clean_probe_threshold : ℕ
  pub last_fallback_reason : FallbackReason

pub record LpRuntime : Type 0 where
  pub commanded : Option CommandedState
  pub breaker : CircuitBreaker
  pub grace_period : ℕ
  pub deviation_floor_kw : ℤ

abbrev pub default_breaker : CircuitBreaker
default_breaker = record {
  latched = false;
  latched_at = none;
  cooldown = 300_000_000;
  consecutive_deviations = 0;
  consecutive_clean_probes = 0;
  deviation_threshold_count = 3;
  clean_probe_threshold = 3;
  last_fallback_reason = no_reason;
}

abbrev pub default_runtime : LpRuntime
default_runtime = record {
  commanded = none;
  breaker = default_breaker;
  grace_period = 30_000_000;
  deviation_floor_kw = pos 300;
}

-- `(now - then) < span`, where the clock may have gone back.
abbrev pub within_span : ℕ → ℕ → ℕ → Bool
within_span now then_at span = ltb_ℤ (sub_ℕ now then_at) (pos span)

unfoldable pub is_in_cooldown : CircuitBreaker → ℕ → Bool
is_in_cooldown b now = elim b.latched_at [
  | none ↦ false
  | some t ↦ b.latched && within_span now t b.cooldown
]

unfoldable pub can_probe : CircuitBreaker → ℕ → Bool
unfolding is_in_cooldown
can_probe b now = b.latched && not (is_in_cooldown b now)

unfoldable pub record_command : LpDispatch → ℕ → LpRuntime → LpRuntime
record_command dispatch now r = record r {
  commanded = some (record { dispatch = dispatch; write_timestamp = now });
  breaker = record (r.breaker) { consecutive_deviations = 0 };
}

unfoldable pub latch : FallbackReason → ℕ → LpRuntime → LpRuntime
latch reason now r = record r {
  commanded = none;
  breaker = record (r.breaker) {
    latched = true;
    latched_at = some now;
    last_fallback_reason = reason;
    consecutive_deviations = 0;
    consecutive_clean_probes = 0;
  };
}

unfoldable pub clear_latch : LpRuntime → LpRuntime
clear_latch r = record r {
  breaker = record (r.breaker) {
    latched = false;
    latched_at = none;
    consecutive_clean_probes = 0;
    last_fallback_reason = no_reason;
  };
}
