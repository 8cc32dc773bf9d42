-- ===== src/Breaker/Counts.antt =====
-- The counts that `get_stats` reports.
use photon_kernel_sil.Prelude.{ℕ, ◌+◌, List, [], ◌∷◌, ◌≡◌, arith, Eq, ◌==◌, count}
use photon_kernel_sil.Prelude.Dict.{Dict, get, get_or, put, get_or-put}
use photon_kernel_sil.Breaker.Types.{Level, TriggerType, Breaker, level_eq, trigger_eq}
use photon_kernel_sil.Breaker.Queries.{tally, get_stats}

module _ {ℓ κ} {A : Type ℓ} {K : Type κ} ⦃e : Eq K⦄ (key : A → K) where
  get_or-tally :
      (counts : Dict K ℕ) (xs : List A) (k : K)
      → get_or (tally key counts xs) k 0 ≡ get_or counts k 0 + count (λ x. key x == k) xs
  unfolding tally
  get_or-tally counts [] k = omega arith
  get_or-tally counts (x ∷ xs) k = ground (
    arith,
    get_or-tally (put counts (key x) (get_or counts (key x) 0 + 1)) xs k,
    get_or-put counts (key x) k (get_or counts (key x) 0 + 1) 0,
    e.same_iff (key x) k,
  )

  count_lem : (xs : List A) (k : K) → get_or (tally key [] xs) k 0 ≡ count (λ x. key x == k) xs
  unfolding get_or get
  count_lem xs k = omega (arith, get_or-tally [] xs k)

-- The statistics count the actions of each level and the events of each trigger.
pub stats_count :
    (b : Breaker) (l : Level) (t : TriggerType)
    → (get_or (get_stats b).actions_by_level l 0 ≡ count (λ a. a.level == l) b.actions)
      × (get_or (get_stats b).events_by_trigger t 0 ≡ count (λ e. e.trigger_type == t) b.events)
unfolding get_stats
stats_count b l t =
    (count_lem (λ a. a.level) b.actions l, count_lem (λ e. e.trigger_type) b.events t)
