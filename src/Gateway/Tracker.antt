-- ===== src/Gateway/Tracker.antt =====
-- server/gateway/isolation_gateway.py: `ConnectionTracker`. The set of the connections of a sandbox
-- is a list without repetitions.
use photon_kernel_sil.Prelude.{
  ℕ, ◌+◌, String, Bool, true, false, not, List, [], ◌∷◌, ◌++◌, leb, ltb, ◌==◌, string_eq, any, keep,
  length, if◌then◌else◌, none, some,
}
use photon_kernel_sil.Prelude.Dict.{Dict, get, get_or, put}
use photon_kernel_sil.Prelude.Text.{text_append, decimal}
use photon_kernel_sil.Gateway.Types.{second}

pub record ConnectionTracker : Type 0 where
  pub max_per_sandbox : ℕ
  pub max_new_per_sec : ℕ
  pub active : Dict String (List String)
  pub recent : Dict String (List ℕ)

unfoldable pub new_tracker : ℕ → ℕ → ConnectionTracker
new_tracker max_per_sandbox max_new_per_sec = record {
  max_per_sandbox = max_per_sandbox;
  max_new_per_sec = max_new_per_sec;
  active = [];
  recent = [];
}

-- `s.add(id)` and `s.discard(id)`
unfoldable pub add : List String → String → List String
add ids id = if any (λ i. i == id) ids then ids else ids ++ id ∷ []

unfoldable pub discard : List String → String → List String
discard ids id = keep (λ i. not (i == id)) ids

unfoldable pub active_count : ConnectionTracker → String → ℕ
active_count t sandbox_id = length (get_or t.active sandbox_id [])

-- `while recent_q and now - recent_q[0] > 1.0: recent_q.popleft()`
unfoldable pub expire : ℕ → List ℕ → List ℕ
expire now [] = []
expire now (time ∷ q) =
    let rest = expire now q in if ltb (time + second) now then rest else time ∷ q

unfoldable pub try_acquire :
    ℕ → ConnectionTracker → String → String → ConnectionTracker × Bool × String
unfolding active_count add expire
try_acquire now t sandbox_id conn_id =
    let q = expire now (get_or t.recent sandbox_id []) in
    if leb t.max_per_sandbox (active_count t sandbox_id)
    then (
      t,
      false,
      text_append "max connections exceeded (" (
          text_append (decimal (active_count t sandbox_id))
            (text_append "/" (text_append (decimal t.max_per_sandbox) ")"))),
    )
    else if leb t.max_new_per_sec (length q)
    then (
      record t { recent = put t.recent sandbox_id q },
      false,
      text_append "rate limit exceeded (" (
          text_append (decimal (length q))
            (text_append "/" (text_append (decimal t.max_new_per_sec) "/s)"))),
    )
    else (
      record t {
        active = put t.active sandbox_id (add (get_or t.active sandbox_id []) conn_id);
        recent = put t.recent sandbox_id (q ++ now ∷ []);
      },
      true,
      "ok",
    )

unfoldable pub release : ConnectionTracker → String → String → ConnectionTracker
unfolding discard
release t sandbox_id conn_id = elim (get t.active sandbox_id) [
  | none ↦ t
  | some ids ↦ record t { active = put t.active sandbox_id (discard ids conn_id) }
]
