-- ===== src/Gateway/Limits.antt =====
-- The limits of the tracker over its histories.
use photon_kernel_sil.Prelude.{
  ℕ, ◌≤◌, String, true, false, List, [], ◌∷◌, ◌≡◌, inl, inr, arith, ◌==◌, nat_eq, string_eq, ==_iff,
  any, Bool-cases,
}
use photon_kernel_sil.Prelude.Dict.{get, get_or}
use photon_kernel_sil.Gateway.Tracker.{
  ConnectionTracker, new_tracker, add, active_count, try_acquire, release,
}
use photon_kernel_sil.Gateway.Slots.{
  connections, Within, try_acquire-cases, try_acquire-Within, connections-put, release_cases,
  release-Within, discard-append,
}

-- The calls of the two methods, in any order
pub data Call : Type 0 where
  acquires : ℕ → String → String → Call
  releases : String → String → Call

unfoldable pub calls : ConnectionTracker → List Call → ConnectionTracker
calls t [] = t
calls t (acquires now sandbox_id conn_id ∷ cs) = calls (try_acquire now t sandbox_id conn_id).0 cs
calls t (releases sandbox_id conn_id ∷ cs) = calls (release t sandbox_id conn_id) cs

calls_from-Within : (t : ConnectionTracker) (cs : List Call) → Within t → Within (calls t cs)
unfolding calls
calls_from-Within t [] within = within
calls_from-Within t (acquires now sandbox_id conn_id ∷ cs) within =
    calls_from-Within (try_acquire now t sandbox_id conn_id).0 cs
      (try_acquire-Within now t sandbox_id conn_id within)
calls_from-Within t (releases sandbox_id conn_id ∷ cs) within =
    calls_from-Within (release t sandbox_id conn_id) cs (release-Within t sandbox_id conn_id within)

-- Whatever the calls on a new tracker, no sandbox ever has more connections than its limit.
pub calls-Within :
    (max_per_sandbox max_new_per_sec : ℕ) (cs : List Call)
    → Within (calls (new_tracker max_per_sandbox max_new_per_sec) cs)
unfolding new_tracker active_count get_or get
calls-Within max_per_sandbox max_new_per_sec cs =
    calls_from-Within (new_tracker max_per_sandbox max_new_per_sec) cs (λ s. nothing_held s)
  where
    nothing_held :
        (s : String)
        → active_count (new_tracker max_per_sandbox max_new_per_sec) s ≤ max_per_sandbox
    nothing_held s = omega arith

-- Where a connection that the sandbox does not have gets a slot and gives it back, every sandbox
-- has the connections that it had before.
pub release-try_acquire :
    (now : ℕ) (t : ConnectionTracker) (sandbox_id conn_id s : String)
    → any (λ i. i == conn_id) (connections t sandbox_id) ≡ false
    → (try_acquire now t sandbox_id conn_id).1 ≡ true
    → connections (release (try_acquire now t sandbox_id conn_id).0 sandbox_id conn_id) s
      ≡ connections t s
unfolding add
release-try_acquire now t sandbox_id conn_id s new granted =
    elim (try_acquire-cases now t sandbox_id conn_id) [
      | inl (refused, _, _) ↦ ground arith
      | inr (_, free, e) ↦
          let t' = (try_acquire now t sandbox_id conn_id).0 in
          let after = connections-put t t'.active sandbox_id s _ e in
          elim (Bool-cases (sandbox_id == s)) [
            | inl here ↦
                let same = (==_iff sandbox_id s).0 here in
                ground (
                  arith,
                  release_cases t' sandbox_id conn_id s,
                  after,
                  discard-append (connections t sandbox_id) conn_id new,
                )
            | inr there ↦ ground (arith, release_cases t' sandbox_id conn_id s, after)
          ]
    ]
