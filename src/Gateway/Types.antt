-- ===== src/Gateway/Types.antt =====
-- server/gateway/isolation_gateway.py: the configuration and the data of a connection. Times are in
-- microseconds.
use photon_kernel_sil.Prelude.{ℕ, String, Bool, true, false, List, [], ◌∷◌, ◌*◌}

abbrev pub second : ℕ
second = 1000000

pub record GatewayConfig : Type 0 where
  pub listen_host : String
  pub listen_port : ℕ
  pub dns_listen_host : String
  pub dns_listen_port : ℕ
  pub authorized_dns_servers : List String
  pub enable_dns_hijack : Bool
  pub max_connections_per_sandbox : ℕ
  pub max_new_connections_per_second : ℕ
  pub max_bandwidth_mbps : ℕ
  pub max_bytes_per_connection : ℕ
  pub domain_whitelist : List String
  pub domain_blacklist : List String
  pub ip_whitelist : List String
  pub ip_blacklist : List String
  pub block_internal_networks : Bool
  pub enable_audit : Bool
  pub audit_log_file : String
  pub audit_hmac_key : String
  pub enable_approval_mode : Bool
  pub approval_domains : List String

unfoldable pub default_config : GatewayConfig
default_config = record {
  listen_host = "0.0.0.0";
  listen_port = 8080;
  dns_listen_host = "0.0.0.0";
  dns_listen_port = 53;
  authorized_dns_servers = "8.8.8.8" ∷ "1.1.1.1" ∷ [];
  enable_dns_hijack = true;
  max_connections_per_sandbox = 64;
  max_new_connections_per_second = 10;
  max_bandwidth_mbps = 100;
  max_bytes_per_connection = 10 * 1024 * 1024;
  domain_whitelist = [];
  domain_blacklist = "*.evil.com" ∷ "*.malware.*" ∷ [];
  ip_whitelist = [];
  ip_blacklist = [];
  block_internal_networks = true;
  enable_audit = true;
  audit_log_file = "/var/log/photon/gateway_audit.log";
  audit_hmac_key = "photon-gateway-audit-key";
  enable_approval_mode = false;
  approval_domains = [];
}

pub record ConnectionInfo : Type 0 where
  pub conn_id : String
  pub sandbox_id : String
  pub tenant_id : String
  pub token_id : String
  pub src_host : String
  pub src_port : ℕ
  pub dest_ip : String
  pub dest_port : ℕ
  pub dest_domain : String
  pub protocol : String
  pub start_time : ℕ
  pub bytes_sent : ℕ
  pub bytes_received : ℕ
  pub decision : String
