-- ===== src/Service/Cooldown.antt =====
-- What the polls of the prices do while the client waits after a refusal.
use energy_optimiser.Prelude.{
  subst, ℕ, ap, ◌<◌, ◌≡◌, ◌≢◌, refl, Bool, true, false, Option, none, some, List, [], ◌∷◌, ◌++◌, ℤ,
  arith, if◌then◌else◌, All, sym, ◌∙◌,
}
use energy_optimiser.Amber.{
  AmberClient, Response, get_5min_prices, drain_log_rows, should_defer_fetch, deferred,
}
use energy_optimiser.Lifecycle.{
  StateMachine, active_no_price, on_amber_success, on_price_age_check, transition,
}
use energy_optimiser.Service.Prices.{
  Feed, persist_price_log, fetch_5min_prices, concluded_5min, Poll, five_minutes, poll, poll_all,
}

-- The polls for 5 minutes at some instants, with the answers that a request would get.
abbrev pub polls_at : List (ℕ × Response) → List Poll
polls_at [] = []
polls_at ((now, response) ∷ rest) = five_minutes now response ∷ polls_at rest

-- The client as a poll leaves it that only drains the rows.
abbrev pub drained : AmberClient → AmberClient
drained a = record a { last_log_rows_30min = []; last_log_rows_5min = [] }

-- The cached prices and their age stand, and the machine takes the prices for present.
pub record IsMasked (before : Feed) (after : Feed) : Type 0 where
  pub cached : after.amber ≡ drained before.amber
  pub recovered : after.state_machine.amber_failures ≡ 0
  pub trusted : after.state_machine.state ≢ active_no_price
  pub unchecked :
      (age : Option ℤ) → on_price_age_check age after.state_machine ≡ (after.state_machine, [])

when_true {ℓ} : {A : Type ℓ} {x : A} (y : A) (b : Bool) → b ≡ true → (if b then x else y) ≡ x
when_true y true e = refl
when_true y false e = cc

defers_before :
    (now until : ℕ) (a : AmberClient)
    → a.rate_limited_until ≡ some until
    → now < until
    → should_defer_fetch now a ≡ true
unfolding should_defer_fetch
defers_before now until a e h = simp e (ground (arith, h))

success_recovers :
    (m : StateMachine)
    → let m' = (on_amber_success m).0 in (m'.amber_failures ≡ 0) × (m'.state ≢ active_no_price)
unfolding on_amber_success transition
success_recovers m = ground arith

age_unchecked :
    (m : StateMachine) (age : Option ℤ)
    → m.state ≢ active_no_price
    → on_price_age_check age m ≡ (m, [])
unfolding on_price_age_check transition
age_unchecked m none h = refl
age_unchecked m (some age) h = ground (arith, h)

module _ (threshold : ℤ) (until : ℕ) where
  -- The feed after a poll that is deferred.
  abbrev masked : Feed → Feed
  masked f = record {
    amber = drained f.amber;
    state_machine = (on_amber_success f.state_machine).0;
    price_forecast_log =
        f.price_forecast_log ++ (f.amber.last_log_rows_30min ++ f.amber.last_log_rows_5min);
  }

  get_5min_prices-deferred :
      (now : ℕ) (response : Response) (a : AmberClient)
      → a.rate_limited_until ≡ some until
      → now < until
      → get_5min_prices now response a ≡ deferred a.last_5min_prices a
  unfolding get_5min_prices
  get_5min_prices-deferred now response a e h = when_true _ _ (defers_before now until a e h)

  poll-masked :
      (now : ℕ) (response : Response) (f : Feed)
      → f.amber.rate_limited_until ≡ some until
      → now < until
      → poll threshold (five_minutes now response) f ≡ masked f
  unfolding poll fetch_5min_prices persist_price_log drain_log_rows
  poll-masked now response f e h =
      ap (λ r. (concluded_5min r f).0) (get_5min_prices-deferred now response f.amber e h)

  masked-IsMasked : (f g : Feed) → drained g.amber ≡ drained f.amber → IsMasked f (masked g)
  masked-IsMasked f g e =
      let (recovered, trusted) = success_recovers g.state_machine in
      record {
        cached = e;
        recovered = recovered;
        trusted = trusted;
        unchecked = λ age. age_unchecked _ age trusted;
      }

  polls_mask :
      (f g : Feed) (rest : List (ℕ × Response))
      → f.amber.rate_limited_until ≡ some until
      → IsMasked f g
      → All (λ p. p.0 < until) rest
      → IsMasked f (poll_all threshold (polls_at rest) g)
  unfolding poll_all
  polls_mask f g [] e i h = i
  polls_mask f g ((now, response) ∷ rest) e i (h, hs) =
      let step = poll-masked now response g (ap (λ a. a.rate_limited_until) i.cached ∙ e) h in
      subst (λ g'. IsMasked f (poll_all threshold (polls_at rest) g')) (sym step)
        (polls_mask f (masked g) rest e (masked-IsMasked f g (ap drained i.cached)) hs)

  -- While the client waits after a refusal, polls make no request and leave the cached prices and
  -- their age as they were. All the same each counts as a success: the failures are back at 0, the
  -- machine is not in `active_no_price`, and its check of the age does nothing, whatever the age.
  pub cooldown_masks :
      (f : Feed) (first : ℕ × Response) (rest : List (ℕ × Response))
      → f.amber.rate_limited_until ≡ some until
      → All (λ p. p.0 < until) (first ∷ rest)
      → IsMasked f (poll_all threshold (polls_at (first ∷ rest)) f)
  unfolding poll_all
  cooldown_masks f (now, response) rest e (h, hs) =
      subst (λ g'. IsMasked f (poll_all threshold (polls_at rest) g'))
        (sym (poll-masked now response f e h))
        (polls_mask f (masked f) rest e (masked-IsMasked f f refl) hs)
