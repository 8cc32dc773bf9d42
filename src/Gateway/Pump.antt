-- ===== src/Gateway/Pump.antt =====
-- How many bytes a connection forwards.
use photon_kernel_sil.Prelude.{
  ℕ, ◌+◌, ◌≤◌, Bool, true, false, not, ◌||◌, List, [], ◌∷◌, ◌≡◌, inl, inr, arith, ltb, ◌==◌, nat_eq,
  string_eq, All, Bool-cases,
}
use photon_kernel_sil.Gateway.Types.{ConnectionInfo}
use photon_kernel_sil.Gateway.Proxy.{
  nothing_yet, broken, bytes, Event, quiet, ready, forwarded, pump,
}

abbrev pub total : ConnectionInfo → ℕ
total conn = conn.bytes_sent + conn.bytes_received

-- One call of `recv` gives at most 65536 bytes.
abbrev pub Small : Event → Type 0
Small (ready from_client (bytes n) allowed sent) = n ≤ 65536
Small (ready from_client nothing_yet allowed sent) = Unit
Small (ready from_client broken allowed sent) = Unit
Small (quiet alive) = Unit

total-forwarded :
    (from_client : Bool) (n : ℕ) (conn : ConnectionInfo)
    → total (forwarded from_client n conn) ≡ total conn + n
unfolding forwarded
total-forwarded true n conn = omega arith
total-forwarded false n conn = omega arith

-- Where each `recv` gives at most 65536 bytes, a connection that begins under its limit forwards at
-- most 65536 bytes more than the limit.
pub pump_bounded :
    (max_bytes : ℕ) (events : List Event) (conn : ConnectionInfo)
    → All Small events
    → total conn ≤ max_bytes
    → total (pump max_bytes events conn) ≤ max_bytes + 65536
unfolding pump
pump_bounded max_bytes [] conn small h = omega (arith, h)
pump_bounded max_bytes (quiet true ∷ events) conn small h =
    pump_bounded max_bytes events conn small.1 h
pump_bounded max_bytes (quiet false ∷ events) conn small h = omega (arith, h)
pump_bounded max_bytes (ready c nothing_yet allowed sent ∷ events) conn small h =
    pump_bounded max_bytes events conn small.1 h
pump_bounded max_bytes (ready c broken allowed sent ∷ events) conn small h = omega (arith, h)
pump_bounded max_bytes (ready c (bytes n) allowed sent ∷ events) conn small h =
    let conn' = forwarded c n conn in
    let grown = total-forwarded c n conn in
    elim (Bool-cases (n == 0)) [
      | inl e ↦ rw e (omega (arith, h))
      | inr e ↦ elim (Bool-cases allowed) [
        | inr a ↦ rw (e, a) (pump_bounded max_bytes events conn small.1 h)
        | inl a ↦ elim (Bool-cases (not sent || ltb max_bytes (total conn'))) [
          | inl stop ↦ rw (e, a, stop) (omega (arith, h, grown, small.0))
          | inr go ↦ rw (e, a, go) (pump_bounded max_bytes events conn' small.1 (ground arith))
        ]
      ]
    ]
