-- ===== src/Gateway/Buckets.antt =====
-- server/gateway/isolation_gateway.py: `TokenBucket`. The source counts tokens in fractions; here
-- they are millionths of a byte, so that a microsecond at a rate in bytes per second adds `rate`.
-- The readings of the clock are taken not to run back.
use photon_kernel_sil.Prelude.{
  ℕ, zero, suc, ◌+◌, ◌-◌, ◌*◌, Bool, true, false, Option, none, some, min, leb, ltb, if◌then◌else◌,
}
use photon_kernel_sil.Gateway.Types.{second}

pub record TokenBucket : Type 0 where
  pub rate : ℕ
  pub max : ℕ
  pub tokens : ℕ
  pub last_time : ℕ

-- `TokenBucket(rate, max)`, at the time `now`
unfoldable pub new_bucket : ℕ → ℕ → ℕ → TokenBucket
new_bucket now rate max = record { rate = rate; max = max; tokens = max * second; last_time = now }

unfoldable pub refill : ℕ → TokenBucket → TokenBucket
refill now b = record b {
  tokens = min (b.max * second) (b.tokens + (now - b.last_time) * b.rate);
  last_time = now;
}

unfoldable pub consume : ℕ → TokenBucket → ℕ → TokenBucket × Bool
unfolding refill
consume now b bytes_needed =
    let b' = refill now b in
    if leb (bytes_needed * second) b'.tokens
    then (record b' { tokens = b'.tokens - bytes_needed * second }, true)
    else (b', false)

-- The loop of `wait_for_tokens` from the reading `k` of the clock on, for at most `fuel` turns: each
-- turn reads the clock for the deadline and again in `consume`. `none` where the fuel runs out.
unfoldable pub wait_loop : ℕ → (ℕ → ℕ) → ℕ → ℕ → TokenBucket → ℕ → Option (TokenBucket × Bool)
unfolding consume
wait_loop zero clock k deadline b bytes_needed = none
wait_loop (suc fuel) clock k deadline b bytes_needed =
    let (b', granted) = consume (clock (k + 1)) b bytes_needed in
    let again = wait_loop fuel clock (k + 2) deadline b' bytes_needed in
    if ltb (clock k) deadline then if granted then some (b', true) else again else some (b, false)

unfoldable pub wait_for_tokens : ℕ → (ℕ → ℕ) → TokenBucket → ℕ → ℕ → Option (TokenBucket × Bool)
wait_for_tokens fuel clock b bytes_needed timeout =
    wait_loop fuel clock 1 (clock 0 + timeout) b bytes_needed
