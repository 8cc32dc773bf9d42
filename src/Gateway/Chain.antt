-- ===== src/Gateway/Chain.antt =====
-- The chain of the audit log.
use mathlib.Core.List.{append-nil, append_assoc}
use photon_kernel_sil.Prelude.{
  ℕ, suc, length, String, Bool, true, ◌&&◌, List, [], ◌∷◌, ◌++◌, ◌≡◌, refl, sym, ap, subst, ◌∙◌,
  arith, ◌==◌, string_eq, ==_iff,
}
use photon_kernel_sil.Gateway.Types.{ConnectionInfo}
use photon_kernel_sil.Gateway.Audit.{Entry, AuditLogger, new_logger, joined, signed_data, log}

module _ (hmac : String → String → String) (key : String) where
  -- The digest of an entry, computed again from what the log file says
  abbrev pub digest_again : Entry → String
  digest_again e = hmac key (
      joined (
        e.conn_id ∷ e.tenant_id ∷ e.token_id ∷ e.dest ∷ e.domain ∷ e.decision ∷ e.reason
        ∷ e.prev_hash ∷ []))

  -- The entries follow one another from one hash to another.
  abbrev pub links : String → List Entry → String → Bool
  links from [] to = from == to
  links from (e ∷ entries) to =
      (e.prev_hash == from) && ((e.hash == digest_again e) && links e.hash entries to)

-- What one connection has the logger write, in any order
abbrev pub Writes : Type 0
Writes = List ((ℕ → ℕ) × ConnectionInfo × String)

unfoldable pub write_all : (String → String → String) → AuditLogger → Writes → AuditLogger
write_all hmac a [] = a
write_all hmac a ((clock, conn, reason) ∷ ws) =
    write_all hmac (log hmac clock true a conn reason).0 ws

module _ (hmac : String → String → String) where
  -- What the logger has after some writes: what it had before, and entries that link its hashes
  record Added (ws : Writes) (a b : AuditLogger) : Type 0 where
    pub added : List Entry
    pub appended : b.entries ≡ a.entries ++ added
    pub counted : length added ≡ length ws
    pub linked : links hmac a.hmac_key a.last_hash added b.last_hash ≡ true

  log-entries :
      (clock : ℕ → ℕ) (a : AuditLogger) (conn : ConnectionInfo) (reason : String)
      → (e : Entry) × ((log hmac clock true a conn reason).0.entries ≡ a.entries ++ e ∷ [])
        × (e.prev_hash ≡ a.last_hash)
        × (e.hash ≡ digest_again hmac a.hmac_key e)
        × ((log hmac clock true a conn reason).0.last_hash ≡ e.hash)
        × ((log hmac clock true a conn reason).0.hmac_key ≡ a.hmac_key)
  unfolding log signed_data
  log-entries clock a conn reason = (_, refl, refl, refl, refl, refl)

  links-cons :
      (key from to : String) (e : Entry) (entries : List Entry)
      → e.prev_hash ≡ from
      → e.hash ≡ digest_again hmac key e
      → links hmac key e.hash entries to ≡ true
      → links hmac key from (e ∷ entries) to ≡ true
  links-cons key from to e entries p d h =
      ground (arith, h, ==_iff e.prev_hash from, ==_iff e.hash (digest_again hmac key e))

  write_all-Added : (a : AuditLogger) (ws : Writes) → Added ws a (write_all hmac a ws)
  unfolding write_all
  write_all-Added a [] = record {
    added = [];
    appended = sym (append-nil a.entries);
    counted = refl;
    linked = (==_iff a.last_hash a.last_hash).1 refl;
  }
  write_all-Added a ((clock, conn, reason) ∷ ws) =
      let a' = (log hmac clock true a conn reason).0 in
      let (e, f, from, digest, to, same_key) = log-entries clock a conn reason in
      let rest = write_all-Added a' ws in
      let linked =
        subst (λ h. links hmac a'.hmac_key h rest.added (write_all hmac a' ws).last_hash ≡ true) to
          rest.linked in
      record {
        added = e ∷ rest.added;
        appended =
            rest.appended
            ∙ ap (λ es. es ++ rest.added) f
            ∙ append_assoc a.entries (e ∷ []) rest.added;
        counted = ap suc rest.counted;
        linked =
            links-cons a.hmac_key a.last_hash (write_all hmac a' ws).last_hash e rest.added from
              digest
              (subst (λ k. links hmac k e.hash rest.added (write_all hmac a' ws).last_hash ≡ true)
                same_key linked);
      }

  -- Where every entry can be written, a logger adds an entry for each write to what the file has
  -- when it is constructed, and these are a chain: the first that it adds names sixty-four zeros,
  -- each other one the digest of the one before it, the digest of each is the one computed again
  -- from what the file says, and the last is the one that the logger holds. Where the file was
  -- empty, it is all of the file that is this chain.
  pub write_all-links :
      (key : String) (file : List Entry) (ws : Writes)
      → (added : List Entry) × ((write_all hmac (new_logger key file) ws).entries ≡ file ++ added)
        × (length added ≡ length ws)
        × (links hmac key "0000000000000000000000000000000000000000000000000000000000000000" added
              (write_all hmac (new_logger key file) ws).last_hash
            ≡ true)
  unfolding new_logger
  write_all-links key file ws =
      let h = write_all-Added (new_logger key file) ws in (h.added, h.appended, h.counted, h.linked)
