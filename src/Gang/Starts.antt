-- ===== src/Gang/Starts.antt =====
-- The start and the eviction of a gang.
use photon_kernel_sil.Prelude.{
  ℕ, String, Bool, true, false, not, ◌&&◌, List, [], ◌∷◌, ◌++◌, map, Option, none, some, ◌≡◌, ◌⊎◌,
  inl, inr, refl, ◌∙◌, arith, ◌==◌, nat_eq, string_eq, ==_iff, any, All, keep, Option-cases,
  Bool-cases,
}
use photon_kernel_sil.Prelude.Dict.{Dict, get, put, get-put_self}
use photon_kernel_sil.Gang.Types.{
  resources_ready, running, GangJob, GangScheduler, SandboxInstance, gang_status_eq,
}
use photon_kernel_sil.Gang.Scheduler.{
  started, timed_out, start_gang, has_low_priority, find_evictable_gangs, perform_eviction,
  evict_low_priority_gangs, evicted, resources_satisfied, remove_first, with_status,
}

-- The gang can start: it has its resources, in time. The number of the gangs that run plays no part.
abbrev pub startable : Option GangJob → ℕ → Bool
startable none now = false
startable (some gang) now = (gang.status == resources_ready) && not (timed_out gang now)

All-status :
    (status : String) (is : List SandboxInstance)
    → All (λ i. i.status ≡ status) (map (with_status status) is)
All-status status [] = tt
All-status status (i ∷ is) = (refl, All-status status is)

-- A gang starts exactly when it has its resources in time, however many gangs run.
pub start_gang_iff :
    (clock : ℕ → ℕ) (s : GangScheduler) (gang_id : String)
    → (start_gang clock s gang_id).1 ≡ startable (get s.gangs gang_id) (clock 0)
unfolding start_gang
start_gang_iff clock s gang_id = ground arith

-- A gang that starts is running with all its instances, and its id is the last of those that run.
pub start_gang_starts :
    (clock : ℕ → ℕ) (s : GangScheduler) (gang_id : String)
    → (start_gang clock s gang_id).1 ≡ true
    → ((start_gang clock s gang_id).0.running_gangs ≡ s.running_gangs ++ gang_id ∷ [])
      × ((g : GangJob) × (get (start_gang clock s gang_id).0.gangs gang_id ≡ some g)
          × (g.status ≡ running)
          × (g.start_time ≡ some (clock 1))
          × All (λ i. i.status ≡ "running") g.instances)
unfolding start_gang started
start_gang_starts clock s gang_id h = elim (Option-cases (get s.gangs gang_id)) [
  | inl e ↦ ground arith
  | inr (g, e) ↦ elim (Bool-cases (g.status == resources_ready)) [
    | inr r ↦ ground arith
    | inl r ↦ elim (Bool-cases (timed_out g (clock 0))) [
      | inl late ↦ ground arith
      | inr on_time ↦
          rw (e, r, on_time, start_gang)
            (
              refl,
              (_, get-put_self s.gangs gang_id _, refl, refl, All-status "running" g.instances),
            )
    ]
  ]
]

-- The gang has an instance of the lowest class.
abbrev pub evictable : Option GangJob → Bool
evictable none = false
evictable (some gang) = has_low_priority gang

evictable-find :
    (s : GangScheduler) (ids : List String)
    → find_evictable_gangs s ids ≡ keep (λ id. evictable (get s.gangs id)) ids
unfolding find_evictable_gangs
evictable-find s [] = refl
evictable-find s (id ∷ ids) = ground (arith, evictable-find s ids)

-- What an eviction does: nothing, or it ends one gang.
pub data Eviction (s s' : GangScheduler) : List String → Type 0 where
  nobody :
      s' ≡ s
      → (s.eviction_enabled && any (λ id. evictable (get s.gangs id)) s.running_gangs) ≡ false
      → Eviction s s' []
  one :
      (id : String) (gang : GangJob)
      → get s.gangs id ≡ some gang
      → has_low_priority gang ≡ true
      → any (λ j. j == id) s.running_gangs ≡ true
      → s' ≡ record s {
        gangs = put s.gangs id (evicted gang);
        running_gangs = remove_first id s.running_gangs;
      }
      → Eviction s s' (id ∷ [])

first_kept :
    (p : String → Bool) (ids : List String)
    → ((keep p ids ≡ []) × (any p ids ≡ false))
      ⊎ ((id : String) × (rest : List String) × (keep p ids ≡ id ∷ rest)
          × (p id ≡ true)
          × (any (λ j. j == id) ids ≡ true))
first_kept p [] = inl (refl, refl)
first_kept p (id ∷ ids) = elim (Bool-cases (p id)) [
  | inl e ↦ inr (id, keep p ids, ground arith, e, ground (arith, ==_iff id id))
  | inr e ↦ elim (first_kept p ids) [
    | inl (k, a) ↦ inl (ground arith, ground arith)
    | inr (j, rest, k, q, a) ↦ inr (j, rest, ground arith, q, ground arith)
  ]
]

evictable-cases :
    (o : Option GangJob)
    → evictable o ≡ true
    → (gang : GangJob) × (o ≡ some gang) × (has_low_priority gang ≡ true)
evictable-cases none h = cc
evictable-cases (some gang) h = (gang, refl, h)

-- An eviction ends one gang at most, which ran and has an instance of the lowest class; it ends
-- none only where it is disabled or no such gang runs.
pub evict_lem :
    (s : GangScheduler) (needed : Dict String ℕ)
    → Eviction s (evict_low_priority_gangs s needed).0 (evict_low_priority_gangs s needed).1
unfolding evict_low_priority_gangs perform_eviction resources_satisfied
evict_lem s needed = elim (Bool-cases s.eviction_enabled) [
  | inr off ↦ rw (off, evict_low_priority_gangs) (nobody refl (ground arith))
  | inl on ↦ elim (first_kept (λ id. evictable (get s.gangs id)) s.running_gangs) [
    | inl (k, a) ↦
        rw (on, evictable-find s s.running_gangs ∙ k, evict_low_priority_gangs)
          (nobody refl (ground arith))
    | inr (id, rest, k, p, a) ↦
        let (gang, found, low) = evictable-cases (get s.gangs id) p in
        rw
          (
            on,
            evictable-find s s.running_gangs ∙ k,
            found,
            evict_low_priority_gangs,
            perform_eviction,
          )
          (one id gang found low a refl)
  ]
]
