-- ===== src/Gateway/Flow.antt =====
-- What the proxy lets through, and what it leaves behind.
use photon_kernel_sil.Prelude.{
  ℕ, ◌+◌, String, Bool, true, false, not, ◌&&◌, [], Option, none, some, ◌≡◌, inl, inr, refl, sym,
  ap, ◌∙◌, ◌==◌, nat_eq, string_eq, any, Option-cases, Bool-cases,
}
use photon_kernel_sil.Prelude.Text.{text_append}
use photon_kernel_sil.Prelude.Dict.{get_or}
use photon_kernel_sil.Gateway.Types.{ConnectionInfo}
use photon_kernel_sil.Gateway.Addresses.{Address, is_internal_ip}
use photon_kernel_sil.Gateway.Tracker.{ConnectionTracker, try_acquire, release}
use photon_kernel_sil.Gateway.Slots.{connections, acquirable, try_acquire-cases}
use photon_kernel_sil.Gateway.Limits.{release-try_acquire}
use photon_kernel_sil.Gateway.Proxy.{
  TcpProxy, World, Outcome, unread, internal, blacklisted, limited, unreachable, proxied,
  read_target, recv_exact, new_connection, audited, serve, decide, conn_name, handle_client,
}

-- The outcomes in which the proxy called `connect`
abbrev pub tried : Outcome → Bool
tried unread = false
tried internal = false
tried blacklisted = false
tried limited = false
tried unreachable = true
tried proxied = true

module _ (hmac : String → String → String) (ip_address : String → Option Address) where
  -- The rules for a target, and the limits of the sandbox of the client
  abbrev pub permitted : World → TcpProxy → Option (String × ℕ) → Bool
  permitted w p none = false
  permitted w p (some target) =
      not (p.config.block_internal_networks && (is_internal_ip ip_address target.0).0)
      && (not (any (λ ip. ip == target.0) p.config.ip_blacklist)
          && acquirable p.conn_tracker (text_append "sandbox-" w.src_host) (w.clock 1))

  tried-serve :
      (w : World) (conn : ConnectionInfo) (p : TcpProxy)
      → tried (serve hmac ip_address w conn p).1 ≡ true
  unfolding serve
  tried-serve w conn p = elim (Option-cases w.connect_error) [
    | inl e ↦ rw (e, serve) refl
    | inr (error, e) ↦ rw (e, serve) refl
  ]

  acquired-acquirable :
      (now : ℕ) (t : ConnectionTracker) (sandbox_id conn_id : String)
      → (try_acquire now t sandbox_id conn_id).1 ≡ acquirable t sandbox_id now
  acquired-acquirable now t sandbox_id conn_id = elim (try_acquire-cases now t sandbox_id conn_id) [
    | inl (r, f, _) ↦ r ∙ sym f
    | inr (r, f, _) ↦ r ∙ sym f
  ]

  tried-decide :
      (w : World) (conn : ConnectionInfo) (p : TcpProxy)
      → tried (decide hmac ip_address w conn p).1 ≡ (
          not (p.config.block_internal_networks && (is_internal_ip ip_address conn.dest_ip).0)
          && (not (any (λ ip. ip == conn.dest_ip) p.config.ip_blacklist)
              && acquirable p.conn_tracker conn.sandbox_id (w.clock 1)))
  unfolding decide
  tried-decide w conn p =
      let served = tried-serve w conn (record p {
        conn_tracker = (try_acquire (w.clock 1) p.conn_tracker conn.sandbox_id conn.conn_id).0;
      }) in
      let slot = acquired-acquirable (w.clock 1) p.conn_tracker conn.sandbox_id conn.conn_id in
      elim (Bool-cases
        (p.config.block_internal_networks && (is_internal_ip ip_address conn.dest_ip).0)) [
          | inl i ↦ rw (i, decide) refl
          | inr i ↦ elim (Bool-cases (any (λ ip. ip == conn.dest_ip) p.config.ip_blacklist)) [
            | inl b ↦ rw (i, b, decide) refl
            | inr b ↦ elim (Bool-cases (acquirable p.conn_tracker conn.sandbox_id (w.clock 1))) [
              | inl a ↦ rw (i, b, slot ∙ a, a, decide) served
              | inr a ↦ rw (i, b, slot ∙ a, a, decide) refl
            ]
          ]
        ]

  -- The proxy calls `connect` exactly when it has read a target that is not internal, where it
  -- blocks internal networks, and not on the blacklist, and the sandbox of the client is below its
  -- limits.
  pub tried-handle_client :
      (w : World) (p : TcpProxy)
      → tried (handle_client hmac ip_address w p).1
        ≡ permitted w p (read_target (recv_exact 6 [] w.chunks))
  unfolding handle_client new_connection
  tried-handle_client w p = elim (Option-cases (read_target (recv_exact 6 [] w.chunks))) [
    | inl e ↦ rw (e, handle_client) refl
    | inr (target, e) ↦
        rw (e, handle_client)
          (tried-decide w (new_connection w (conn_name p.conn_counter) target)
            (record p { conn_counter = p.conn_counter + 1 }))
  ]

  serve-slot :
      (w : World) (conn : ConnectionInfo) (p : TcpProxy)
      → (serve hmac ip_address w conn p).0.conn_tracker
        ≡ release p.conn_tracker conn.sandbox_id conn.conn_id
  unfolding serve audited
  serve-slot w conn p = elim (Option-cases w.connect_error) [
    | inl e ↦ rw (e, serve) refl
    | inr (error, e) ↦ rw (e, serve) refl
  ]

  decide-slot :
      (w : World) (conn : ConnectionInfo) (p : TcpProxy) (s : String)
      → any (λ i. i == conn.conn_id) (connections p.conn_tracker conn.sandbox_id) ≡ false
      → connections (decide hmac ip_address w conn p).0.conn_tracker s
        ≡ connections p.conn_tracker s
  unfolding decide audited
  decide-slot w conn p s new =
      let t' = (try_acquire (w.clock 1) p.conn_tracker conn.sandbox_id conn.conn_id).0 in
      elim (Bool-cases
        (p.config.block_internal_networks && (is_internal_ip ip_address conn.dest_ip).0)) [
          | inl i ↦ rw (i, decide) refl
          | inr i ↦ elim (Bool-cases (any (λ ip. ip == conn.dest_ip) p.config.ip_blacklist)) [
            | inl b ↦ rw (i, b, decide) refl
            | inr b ↦
                elim (try_acquire-cases (w.clock 1) p.conn_tracker conn.sandbox_id conn.conn_id) [
                  | inl (refused, _, same) ↦
                      rw (i, b, refused, decide) (ap (λ d. get_or d s []) same)
                  | inr (granted, _, _) ↦
                      rw (i, b, granted, decide)
                        (ap (λ t. connections t s)
                            (serve-slot w conn (record p { conn_tracker = t' }))
                          ∙ release-try_acquire (w.clock 1) p.conn_tracker conn.sandbox_id
                              conn.conn_id s new granted)
                ]
          ]
        ]

  -- Where no connection of the client's sandbox has the id that the proxy gives this one, every
  -- sandbox has the same connections after the call as before it, however the call ends.
  pub handle_client-slot :
      (w : World) (p : TcpProxy) (s : String)
      → any
          (λ i. i == conn_name p.conn_counter)
          (connections p.conn_tracker (text_append "sandbox-" w.src_host))
        ≡ false
      → connections (handle_client hmac ip_address w p).0.conn_tracker s
        ≡ connections p.conn_tracker s
  unfolding handle_client new_connection
  handle_client-slot w p s new = elim (Option-cases (read_target (recv_exact 6 [] w.chunks))) [
    | inl e ↦ rw (e, handle_client) refl
    | inr (target, e) ↦
        rw (e, handle_client)
          (decide-slot w (new_connection w (conn_name p.conn_counter) target)
            (record p { conn_counter = p.conn_counter + 1 }) s new)
  ]
