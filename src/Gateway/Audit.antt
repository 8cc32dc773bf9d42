-- ===== src/Gateway/Audit.antt =====
-- server/gateway/isolation_gateway.py: `AuditLogger`. `hmac` gives the digest of a text under a key;
-- the log file is the list of its entries, and `written` says whether the file could be written.
use photon_kernel_sil.Prelude.{ℕ, ◌-◌, String, Bool, List, [], ◌∷◌, ◌++◌, if◌then◌else◌}
use photon_kernel_sil.Prelude.Text.{text_append, decimal}
use photon_kernel_sil.Gateway.Types.{ConnectionInfo}

pub record Entry : Type 0 where
  pub timestamp : ℕ
  pub conn_id : String
  pub sandbox_id : String
  pub tenant_id : String
  pub token_id : String
  pub src : String
  pub dest : String
  pub domain : String
  pub protocol : String
  pub decision : String
  pub reason : String
  pub bytes_sent : ℕ
  pub bytes_received : ℕ
  pub duration : ℕ
  pub hash : String
  pub prev_hash : String

pub record AuditLogger : Type 0 where
  pub hmac_key : String
  pub last_hash : String
  pub entries : List Entry

-- The constructor leaves what the file has, and `log` appends to it.
unfoldable pub new_logger : String → List Entry → AuditLogger
new_logger hmac_key file = record {
  hmac_key = hmac_key;
  last_hash = "0000000000000000000000000000000000000000000000000000000000000000";
  entries = file;
}

-- `f"{host}:{port}"`
abbrev pub endpoint : String → ℕ → String
endpoint host port = text_append host (text_append ":" (decimal port))

-- the text `a|b|c|…`
abbrev pub joined : List String → String
joined [] = ""
joined (s ∷ []) = s
joined (s ∷ t ∷ rest) = text_append s (text_append "|" (joined (t ∷ rest)))

unfoldable pub signed_data : ConnectionInfo → String → String → String
signed_data conn reason last_hash = joined (
    conn.conn_id
    ∷ conn.tenant_id
    ∷ conn.token_id
    ∷ endpoint conn.dest_ip conn.dest_port
    ∷ conn.dest_domain
    ∷ conn.decision
    ∷ reason
    ∷ last_hash
    ∷ [])

unfoldable pub log :
    (String → String → String)
    → (ℕ → ℕ)
    → Bool
    → AuditLogger
    → ConnectionInfo
    → String
    → AuditLogger × String
unfolding signed_data
log hmac clock written a conn reason =
    let digest = hmac a.hmac_key (signed_data conn reason a.last_hash) in
    let entry : Entry = record {
      timestamp = clock 0;
      conn_id = conn.conn_id;
      sandbox_id = conn.sandbox_id;
      tenant_id = conn.tenant_id;
      token_id = conn.token_id;
      src = endpoint conn.src_host conn.src_port;
      dest = endpoint conn.dest_ip conn.dest_port;
      domain = conn.dest_domain;
      protocol = conn.protocol;
      decision = conn.decision;
      reason = reason;
      bytes_sent = conn.bytes_sent;
      bytes_received = conn.bytes_received;
      duration = clock 1 - conn.start_time;
      hash = digest;
      prev_hash = a.last_hash;
    } in
    (
      record a {
        last_hash = digest;
        entries = if written then a.entries ++ entry ∷ [] else a.entries;
      },
      digest,
    )
