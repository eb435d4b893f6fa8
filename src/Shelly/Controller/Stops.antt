-- ===== src/Shelly/Controller/Stops.antt =====
-- The end of a cycle and the stop of its relay.
use energy_optimiser.Prelude.{
  ℕ, ◌≡◌, refl, Bool, true, false, Bool-cases, inl, inr, Option, none, some, List, [], ◌∷◌, ℤ,
  ltb_ℤ, if_either, ap, subst, map, sym, ◌∙◌,
}
use energy_optimiser.Shelly.Types.{
  LoadCycleState, idle, running, complete_today, shiftable, ManagedLoadConfig, Event,
  load_cycle_complete,
}
use energy_optimiser.Shelly.Cycle.{
  Cycle, cycle_from, update_cycle_state, finish_cycle, meets_target,
}
use energy_optimiser.Shelly.Controller.{
  Load, Poll, apply_queued_stop, energy_read, relay_read, track_energy, track_relay, after_reads,
  update_cycle, cycle_for, power_read, status,
}
use energy_optimiser.Shelly.Controller.Actions.{poll, run}

-- A shiftable load that runs no cycle.
abbrev pub is_running : LoadCycleState → Bool
is_running running = true
is_running idle = false
is_running complete_today = false

pub record IsResting (l : Load) : Type 0 where
  pub category : l.config.category ≡ shiftable
  pub state : is_running l.cycle.state ≡ false

rests :
    (config : ManagedLoadConfig) (energy : ℤ) (now : ℕ) (power : ℤ) (c : Cycle) (s : LoadCycleState)
    → is_running s ≡ false
    → cycle_from config energy now power c s ≡ (c, [])
rests config energy now power c idle h = refl
rests config energy now power c running h = cc
rests config energy now power c complete_today h = refl

update_resting :
    (config : ManagedLoadConfig) (energy : ℤ) (minutes : ℕ) (p : Poll) (c : Cycle)
    → config.category ≡ shiftable
    → is_running c.state ≡ false
    → update_cycle config energy minutes p c ≡ (c, [])
unfolding update_cycle_state
update_resting config energy minutes p c category state =
    ap (λ k. cycle_for k config energy minutes p c) category
    ∙ rests config energy p.cycle_at (power_read p) c c.state state

queued_kept : (l : Load) → IsResting l → IsResting (apply_queued_stop l).0
unfolding apply_queued_stop
queued_kept l h =
    if_either (λ (r : Load × List Bool). IsResting r.0) l.cycle.pending_relay_stop
      (record { category = h.category; state = h.state }) h

-- No stop is queued once the queued one was applied.
queued_taken : (l : Load) → (apply_queued_stop l).0.cycle.pending_relay_stop ≡ false
unfolding apply_queued_stop
queued_taken l = elim (Bool-cases l.cycle.pending_relay_stop) [
  | inl queued ↦ simp queued
  | inr empty ↦ simp empty
]

queued_same :
    (l : Load)
    → ((apply_queued_stop l).0.config ≡ l.config)
      × ((apply_queued_stop l).0.cycle.state ≡ l.cycle.state)
unfolding apply_queued_stop
queued_same l =
    if_either
      (λ (r : Load × List Bool). (r.0.config ≡ l.config) × (r.0.cycle.state ≡ l.cycle.state))
      l.cycle.pending_relay_stop (refl, refl) (refl, refl)

-- A cycle that has just ended.
abbrev Ended : Cycle → Type 0
Ended c = (is_running c.state ≡ false) × (c.pending_relay_stop ≡ true)

cycle_ends :
    (config : ManagedLoadConfig) (energy : ℤ) (now : ℕ) (power : ℤ) (c : Cycle)
    → ltb_ℤ power config.power_zero_threshold_kw ≡ true
    → Ended (cycle_from config energy now power c running).0
cycle_ends config energy now power c low =
    let ended : cycle_from config energy now power c running
        ≡ (finish_cycle config energy c, load_cycle_complete ∷ []) =
      simp low in
    subst (λ (r : Cycle × List Event). Ended r.0) (sym ended)
      (
        if_either (λ s. is_running s ≡ false) (meets_target config.daily_energy_kwh energy) refl
            refl,
        refl,
      )

update_ends :
    (config : ManagedLoadConfig) (energy : ℤ) (minutes : ℕ) (p : Poll) (c : Cycle)
    → config.category ≡ shiftable
    → c.state ≡ running
    → ltb_ℤ (power_read p) config.power_zero_threshold_kw ≡ true
    → Ended (update_cycle config energy minutes p c).0
unfolding update_cycle_state
update_ends config energy minutes p c category state low =
    subst (λ r. Ended r.0)
      (sym (
        ap (λ k. cycle_for k config energy minutes p c) category
        ∙ ap (cycle_from config energy p.cycle_at (power_read p) c) state))
      (cycle_ends config energy p.cycle_at (power_read p) c low)

module _ (local_date : ℕ → ℕ) where
  -- A read of a resting load leaves its cycle as it is.
  reads_kept :
      (p : Poll) (energy : Option (ℤ × ℤ)) (relay_on : Option Bool) (l : Load)
      → IsResting l
      → (after_reads local_date p energy relay_on l).0.cycle ≡ l.cycle
  unfolding track_energy track_relay
  reads_kept p none relay_on l h = refl
  reads_kept p (some (imp, ret)) none l h =
      ap (λ r. r.0) (update_resting l.config _ _ p l.cycle h.category h.state)
  reads_kept p (some (imp, ret)) (some on) l h =
      ap (λ r. r.0) (update_resting l.config _ _ p l.cycle h.category h.state)

  config_kept :
      (p : Poll) (energy : Option (ℤ × ℤ)) (relay_on : Option Bool) (l : Load)
      → (after_reads local_date p energy relay_on l).0.config ≡ l.config
  unfolding track_energy track_relay
  config_kept p none relay_on l = refl
  config_kept p (some (imp, ret)) none l = refl
  config_kept p (some (imp, ret)) (some on) l = refl

  -- After any poll a resting load still rests, and no stop is queued.
  poll_rests :
      (p : Poll) (l : Load)
      → IsResting l
      → let after = (status local_date p l).0.load in
        IsResting after × (after.cycle.pending_relay_stop ≡ false)
  unfolding status
  poll_rests p l h =
      let ready = queued_kept l h in
      let kept =
        reads_kept p (energy_read p) (relay_read l.config p) (apply_queued_stop l).0 ready in
      (
        record {
          category =
              ap (λ c. c.category)
                (config_kept p (energy_read p) (relay_read l.config p) (apply_queued_stop l).0)
              ∙ ready.category;
          state = ap (λ c. is_running c.state) kept ∙ ready.state;
        },
        ap (λ c. c.pending_relay_stop) kept ∙ queued_taken l,
      )

  no_writes :
      (p : Poll) (l : Load)
      → l.cycle.pending_relay_stop ≡ false
      → (status local_date p l).0.writes ≡ []
  unfolding status apply_queued_stop
  no_writes p l h = simp h

  polls_silent :
      (polls : List Poll) (l : Load)
      → IsResting l
      → l.cycle.pending_relay_stop ≡ false
      → (run local_date (map poll polls) l).writes ≡ []
  polls_silent [] l h e = refl
  polls_silent (p ∷ polls) l h e =
      let (rests_on, empty) = poll_rests p l h in
      let later = polls_silent polls (status local_date p l).0.load rests_on empty in
      rw (no_writes p l e) later

  stop_write :
      (p : Poll) (l : Load)
      → l.config.has_relay ≡ true
      → l.cycle.pending_relay_stop ≡ true
      → (status local_date p l).0.writes ≡ false ∷ []
  unfolding status apply_queued_stop
  stop_write p l wired queued = simp (queued, wired)

  one_stop :
      (p : Poll) (polls : List Poll) (l : Load)
      → IsResting l
      → l.config.has_relay ≡ true
      → l.cycle.pending_relay_stop ≡ true
      → (run local_date (map poll (p ∷ polls)) l).writes ≡ false ∷ []
  one_stop p polls l h wired queued =
      let (rests_on, empty) = poll_rests p l h in
      rw
        (
          stop_write p l wired queued,
          polls_silent polls (status local_date p l).0.load rests_on empty,
        )
        refl

  reads_end :
      (p : Poll) (energy : ℤ × ℤ) (relay_on : Option Bool) (l : Load)
      → l.config.category ≡ shiftable
      → l.cycle.state ≡ running
      → ltb_ℤ (power_read p) l.config.power_zero_threshold_kw ≡ true
      → Ended (after_reads local_date p (some energy) relay_on l).0.cycle
  unfolding track_energy track_relay
  reads_end p (imp, ret) none l category state low =
      update_ends l.config _ _ p l.cycle category state low
  reads_end p (imp, ret) (some on) l category state low =
      update_ends l.config _ _ p l.cycle category state low

  -- The first poll that reads power and energy and finds the power of a running cycle below the
  -- threshold ends the cycle. If the load has a relay, the next poll tells it to open, once: no
  -- later poll tells it again, whether or not that call succeeded.
  pub cycle_end :
      (p q : Poll) (polls : List Poll) (energy : ℤ × ℤ) (l : Load)
      → l.config.category ≡ shiftable
      → l.cycle.state ≡ running
      → l.config.has_relay ≡ true
      → energy_read p ≡ some energy
      → ltb_ℤ (power_read p) l.config.power_zero_threshold_kw ≡ true
      → let ended = (status local_date p l).0.load in
        (is_running ended.cycle.state ≡ false)
        × ((run local_date (map poll (q ∷ polls)) ended).writes ≡ false ∷ [])
  unfolding status
  cycle_end p q polls energy l category state wired read low =
      let ready = (apply_queued_stop l).0 in
      let (same_config, same_state) = queued_same l in
      let low_too = ap (λ c. ltb_ℤ (power_read p) c.power_zero_threshold_kw) same_config ∙ low in
      let (over, queued) =
        subst (λ e. Ended (after_reads local_date p e (relay_read l.config p) ready).0.cycle)
          (sym read)
          (reads_end p energy (relay_read l.config p) ready
            (ap (λ c. c.category) same_config ∙ category) (same_state ∙ state) low_too) in
      let kept = config_kept p (energy_read p) (relay_read l.config p) ready ∙ same_config in
      let rests_now : IsResting (status local_date p l).0.load = record {
        category = ap (λ c. c.category) kept ∙ category;
        state = over;
      } in
      (
        over,
        one_stop q polls (status local_date p l).0.load rests_now
            (ap (λ c. c.has_relay) kept ∙ wired) queued,
      )
