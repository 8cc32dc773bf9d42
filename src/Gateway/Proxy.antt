-- ===== src/Gateway/Proxy.antt =====
-- server/gateway/isolation_gateway.py: `TcpProxy`, the handling of one connection from its header to
-- its end, and the parts that `IsolationGatewayService` builds. What the sockets do is an argument.
use photon_kernel_sil.Prelude.{
  ℕ, ◌+◌, ◌*◌, ◌/◌, String, Bool, true, false, not, ◌&&◌, ◌||◌, List, [], ◌∷◌, ◌++◌, Option, none,
  some, ltb, ◌==◌, string_eq, nat_eq, any, length, if◌then◌else◌,
}
use photon_kernel_sil.Prelude.Text.{text_append, decimal}
use photon_kernel_sil.Gateway.Types.{GatewayConfig, ConnectionInfo}
use photon_kernel_sil.Gateway.Addresses.{Address, is_internal_ip}
use photon_kernel_sil.Gateway.Buckets.{TokenBucket, new_bucket}
use photon_kernel_sil.Gateway.Tracker.{ConnectionTracker, new_tracker, try_acquire, release}
use photon_kernel_sil.Gateway.Audit.{Entry, AuditLogger, new_logger, log}

-- `_recv_exact`: what each call of `recv` gives; an empty chunk is the end of the stream.
unfoldable pub recv_exact : ℕ → List ℕ → List (List ℕ) → Option (List ℕ)
recv_exact n got [] = if ltb (length got) n then none else some got
recv_exact n got ([] ∷ chunks) = if ltb (length got) n then none else some got
recv_exact n got ((byte ∷ chunk) ∷ chunks) =
    let rest = recv_exact n (got ++ byte ∷ chunk) chunks in
    if ltb (length got) n then rest else some got

-- `inet_ntoa(header[:4])` and `unpack(">H", header[4:6])`
unfoldable pub read_target : Option (List ℕ) → Option (String × ℕ)
read_target (some (a ∷ b ∷ c ∷ d ∷ high ∷ low ∷ rest)) = some (
  text_append (decimal a) (
      text_append "." (
        text_append (decimal b)
          (text_append "." (text_append (decimal c) (text_append "." (decimal d)))))),
  high * 256 + low,
)
read_target _ = none

-- What `recv` gives: nothing yet, an error, or a number of bytes.
pub data Received : Type 0 where
  nothing_yet broken : Received
  bytes : ℕ → Received

-- One event of the loop of `_pump_bidirectional`: a second in which nothing came, with whether the
-- client is still there; or a socket, the client's or the other one, with what it gives, whether the
-- bandwidth allows it, and whether it can be sent on.
pub data Event : Type 0 where
  quiet : Bool → Event
  ready : Bool → Received → Bool → Bool → Event

unfoldable pub forwarded : Bool → ℕ → ConnectionInfo → ConnectionInfo
forwarded true n conn = record conn { bytes_sent = conn.bytes_sent + n }
forwarded false n conn = record conn { bytes_received = conn.bytes_received + n }

unfoldable pub pump : ℕ → List Event → ConnectionInfo → ConnectionInfo
pump max_bytes [] conn = conn
pump max_bytes (quiet alive ∷ events) conn =
    let rest = pump max_bytes events conn in if alive then rest else conn
pump max_bytes (ready from_client nothing_yet allowed sent ∷ events) conn =
    pump max_bytes events conn
pump max_bytes (ready from_client broken allowed sent ∷ events) conn = conn
pump max_bytes (ready from_client (bytes n) allowed sent ∷ events) conn =
    let conn' = forwarded from_client n conn in
    let dropped = pump max_bytes events conn in
    let rest = pump max_bytes events conn' in
    if n == 0
    then conn
    else if not allowed
    then dropped
    else if not sent || ltb max_bytes (conn'.bytes_sent + conn'.bytes_received)
    then conn'
    else rest

pub record TcpProxy : Type 0 where
  pub config : GatewayConfig
  pub audit : AuditLogger
  pub conn_tracker : ConnectionTracker
  pub conn_counter : ℕ

-- What the world does in one call: the client, the chunks of its header, the error of the connection
-- to the target if there is one, and what the sockets give then.
pub record World : Type 0 where
  pub src_host : String
  pub src_port : ℕ
  pub chunks : List (List ℕ)
  pub connect_error : Option String
  pub events : List Event
  pub clock : ℕ → ℕ
  pub written : ℕ → Bool

-- How a connection ends
pub data Outcome : Type 0 where
  unread internal blacklisted limited unreachable proxied : Outcome

unfoldable pub new_connection : World → String → String × ℕ → ConnectionInfo
new_connection w conn_id (dest_ip, dest_port) = record {
  conn_id = conn_id;
  sandbox_id = text_append "sandbox-" w.src_host;
  tenant_id = "unknown";
  token_id = "unknown";
  src_host = w.src_host;
  src_port = w.src_port;
  dest_ip = dest_ip;
  dest_port = dest_port;
  dest_domain = "";
  protocol = "tcp";
  start_time = w.clock 0;
  bytes_sent = 0;
  bytes_received = 0;
  decision = "ALLOW";
}

-- `f"conn-{self.conn_counter}"`
unfoldable pub conn_name : ℕ → String
conn_name n = text_append "conn-" (decimal n)

module _ (hmac : String → String → String) (ip_address : String → Option Address) where
  -- `self.audit.log(conn, reason)`, from the reading `k` of the clock on
  unfoldable pub audited : World → ℕ → ConnectionInfo → String → TcpProxy → TcpProxy
  audited w k conn reason p = record p {
    audit = (log hmac (λ j. w.clock (k + j)) (w.written k) p.audit conn reason).0;
  }

  -- `_handle_client` from the connection to the target on
  unfoldable pub serve : World → ConnectionInfo → TcpProxy → TcpProxy × Outcome
  unfolding audited
  serve w conn p = elim w.connect_error [
    | some error ↦
        let denied : ConnectionInfo = record conn { decision = "DENY" } in
        let p' = audited w 2 denied (text_append "connect failed: " error) p in
        (
          record p' { conn_tracker = release p'.conn_tracker conn.sandbox_id conn.conn_id },
          unreachable,
        )
    | none ↦
        let p1 = audited w 2 conn "connection established" p in
        let conn' = pump p.config.max_bytes_per_connection w.events conn in
        let p2 = audited w 4 conn' "connection closed" p1 in
        (record p2 { conn_tracker = release p2.conn_tracker conn.sandbox_id conn.conn_id }, proxied)
  ]

  -- `_handle_client` from the rules on
  unfoldable pub decide : World → ConnectionInfo → TcpProxy → TcpProxy × Outcome
  unfolding serve
  decide w conn p =
      let denied : ConnectionInfo = record conn { decision = "DENY" } in
      let is_internal = is_internal_ip ip_address conn.dest_ip in
      let acquired = try_acquire (w.clock 1) p.conn_tracker conn.sandbox_id conn.conn_id in
      if p.config.block_internal_networks && is_internal.0
      then (audited w 1 denied (text_append "internal network blocked: " is_internal.1) p, internal)
      else if any (λ ip. ip == conn.dest_ip) p.config.ip_blacklist
      then (audited w 1 denied "IP blacklisted" p, blacklisted)
      else if acquired.1
      then serve w conn (record p { conn_tracker = acquired.0 })
      else (
        audited w 2 (record conn { decision = "RATE_LIMITED" }) acquired.2
            (record p { conn_tracker = acquired.0 }),
        limited,
      )

  unfoldable pub handle_client : World → TcpProxy → TcpProxy × Outcome
  unfolding decide conn_name
  handle_client w p =
      let p' = record p { conn_counter = p.conn_counter + 1 } in
      elim (read_target (recv_exact 6 [] w.chunks)) [
        | none ↦ (p', unread)
        | some target ↦ decide w (new_connection w (conn_name p.conn_counter) target) p'
      ]

-- `IsolationGatewayService.__init__`: the proxy and the bucket for the bandwidth, at the time `now`,
-- with what the log file has
unfoldable pub new_service : ℕ → GatewayConfig → List Entry → TcpProxy × Option TokenBucket
new_service now config file =
    let rate = config.max_bandwidth_mbps * 1024 * 1024 / 8 in
    (
      record {
        config = config;
        audit = new_logger config.audit_hmac_key file;
        conn_tracker =
            new_tracker config.max_connections_per_sandbox config.max_new_connections_per_second;
        conn_counter = 0;
      },
      if ltb 0 config.max_bandwidth_mbps then some (new_bucket now rate (rate * 2)) else none,
    )
