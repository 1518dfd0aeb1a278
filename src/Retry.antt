-- ===== src/Retry.antt =====
-- audiowire/src/bin/client.rs: `with_retry`.
pub mod Attempts
use audiowire.Base.{
  ℕ, zero, suc, ◌+◌, ◌*◌, ◌%◌, List, [], ◌∷◌, Option, none, some, Outcome, ok, err, panic, leb,
  ◌==◌, if◌then◌else◌,
}

-- `MAX_RETRY`, and `RETRY_DURATION` in seconds
abbrev pub max_retry : ℕ
max_retry = 5

abbrev pub retry_duration : ℕ
retry_duration = 3

-- What the loop leaves: its result (`none` if the fuel ran out), how often it has called `g`, and the
-- seconds of each sleep.
pub record Retried (E T : Type 0) : Type 0 where
  pub result : Option (Outcome E T)
  pub calls : ℕ
  pub sleeps : List ℕ

module _ {E T : Type 0} where
  abbrev pub returns : Outcome E T → Retried E T
  returns o = record { result = some o; calls = 1; sleeps = [] }

  abbrev pub after_sleep : ℕ → Retried E T → Retried E T
  after_sleep duration r = record r {
    calls = suc r.calls;
    sleeps = (if duration == 0 then r.sleeps else duration ∷ r.sleeps);
  }

  -- `g` is called once for each value of `retry`, so its answers are a function of it. `retry` is a `u8`.
  unfoldable pub retry_loop : (ℕ → Outcome E T) → ℕ → ℕ → Retried E T
  retry_loop g zero retry = record { result = none; calls = 0; sleeps = [] }
  retry_loop g (suc fuel) retry = elim (g retry) [
    | ok v ↦ returns (ok v)
    | panic ↦ returns panic
    | err e ↦
        let rest = retry_loop g fuel ((retry + 1) % 256) in
        if leb max_retry retry
        then returns (err e)
        else after_sleep (retry_duration * ((retry + 1) % 256)) rest
  ]

  unfoldable pub with_retry : (ℕ → Outcome E T) → Retried E T
  unfolding retry_loop
  with_retry g = retry_loop g 6 0
