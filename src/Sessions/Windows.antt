-- ===== src/Sessions/Windows.antt =====
-- The windows of snapshots and of the audit log over the histories of a manager.
use photon_kernel_sil.Prelude.{
  ℕ, ◌-◌, ◌≤◌, ◌<◌, String, List, [], ◌∷◌, ◌++◌, ◌≡◌, inl, inr, sym, ap, ◌∙◌, subst, arith, ltb,
  nat_eq, string_eq, length, length-drop, Bool-cases, ltb→le,
}
use photon_kernel_sil.Prelude.Dict.{get_or, get_or-put}
use photon_kernel_sil.Sessions.Types.{
  SessionState, SessionSnapshot, SessionChangeLog, SessionStateManager, World,
}
use photon_kernel_sil.Sessions.Effects.{log_change-rest}
use photon_kernel_sil.Sessions.Store.{
  last_n, max_logs, keep_logs, log_change, window, new_snapshot, create_snapshot_internal,
}

-- The last n of more than n elements, for n above 0
length-last_n : {A : Type 0} (n : ℕ) (xs : List A) → 0 < n → length (last_n n xs) ≤ n
unfolding last_n
length-last_n n xs h = ground (arith, length-drop (length xs - n) xs)

length-window : (max : ℕ) (xs : List SessionSnapshot) → 0 < max → length (window max xs) ≤ max
unfolding window
length-window max xs h = elim (Bool-cases (ltb max (length xs))) [
  | inl e ↦ rw e (length-last_n max xs h)
  | inr e ↦ rw e (ltb→le max (length xs) e)
]

length-keep_logs : (xs : List SessionChangeLog) → length (keep_logs xs) ≤ max_logs
unfolding keep_logs
length-keep_logs xs = elim (Bool-cases (ltb max_logs (length xs))) [
  | inl e ↦ rw e (length-last_n max_logs xs (omega arith))
  | inr e ↦ rw e (ltb→le max_logs (length xs) e)
]

-- At most `max` snapshots of each session, and at most 10000 entries of the audit log
pub record IsBounded (max : ℕ) (m : SessionStateManager) : Type 0 where
  pub limit : m.max_snapshots_per_session ≡ max
  pub snapshots : (id : String) → length (get_or m.snapshots id []) ≤ max
  pub logs : length m.change_logs ≤ max_logs

module _ (max : ℕ) (positive : 0 < max) where
  pub log_change-IsBounded :
      (e : SessionChangeLog) (m : SessionStateManager)
      → IsBounded max m
      → IsBounded max (log_change e m)
  unfolding log_change
  log_change-IsBounded e m b =
      let (_, _, same_snapshots, same_limit) = log_change-rest e m in
      record {
        limit = same_limit ∙ b.limit;
        snapshots = λ id. ground (arith, ap (λ d. get_or d id []) same_snapshots, b.snapshots id);
        logs = ground (arith, length-keep_logs (m.change_logs ++ e ∷ []), b.logs);
      }

  pub create_snapshot_internal-IsBounded :
      (w : World) (now : ℕ) (s : SessionState) (reason : String) (m : SessionStateManager)
      → IsBounded max m
      → IsBounded max (create_snapshot_internal w now s reason m)
  unfolding create_snapshot_internal
  create_snapshot_internal-IsBounded w now s reason m b = record {
    limit = b.limit;
    snapshots = λ id.
        let old = get_or m.snapshots s.session_id [] ++ new_snapshot w now s reason ∷ [] in
        ground (
          arith,
          get_or-put m.snapshots s.session_id id (window m.max_snapshots_per_session old) [],
          subst (λ k. length (window k old) ≤ max) (sym b.limit) (length-window max old positive),
          b.snapshots id,
        );
    logs = b.logs;
  }
