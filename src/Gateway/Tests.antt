-- ===== src/Gateway/Tests.antt =====
-- The theorems on the gateway at concrete inputs.
use photon_kernel_sil.Prelude.{
  ℕ, ◌+◌, ◌-◌, ◌*◌, ◌/◌, ◌++◌, ◌&&◌, not, ◌≤◌, ◌≢◌, String, true, false, List, [], ◌∷◌, Option,
  none, some, ◌≡◌, refl, arith, any, string_eq, nat_eq, length, ◌==◌, if◌then◌else◌,
}
use photon_kernel_sil.Prelude.Text.{text_append}
use photon_kernel_sil.Prelude.Dict.{get, get_or}
use photon_kernel_sil.Gateway.Types.{second, default_config, ConnectionInfo}
use photon_kernel_sil.Gateway.Addresses.{Address, version_4, dotted, is_internal_ip}
use photon_kernel_sil.Gateway.Buckets.{new_bucket, wait_for_tokens}
use photon_kernel_sil.Gateway.Tracker.{new_tracker, try_acquire, active_count, expire}
use photon_kernel_sil.Gateway.Audit.{Entry, new_logger}
use photon_kernel_sil.Gateway.Proxy.{
  Event, ready, bytes, World, TcpProxy, new_service, read_target, recv_exact, conn_name,
  handle_client,
}
use photon_kernel_sil.Gateway.Networks.{listed, benchmark, is_internal_ip-listed}
use photon_kernel_sil.Gateway.Grants.{consumes, consumes_bounded, wait_for_tokens-ends}
use photon_kernel_sil.Gateway.Slots.{connections, Within}
use photon_kernel_sil.Gateway.Limits.{Call, acquires, releases, calls, calls-Within}
use photon_kernel_sil.Gateway.Chain.{links, Writes, write_all, write_all-links}
use photon_kernel_sil.Gateway.Flow.{tried, permitted, tried-handle_client, handle_client-slot}

-- A reader of three texts: the address of the metadata service, a private one and a public one
abbrev reads : String → Option Address
reads text =
    if text == "169.254.169.254"
    then some (version_4 (dotted 169 254 169 254))
    else if text == "10.1.2.3"
    then some (version_4 (dotted 10 1 2 3))
    else if text == "8.8.8.8"
    then some (version_4 (dotted 8 8 8 8))
    else none

is_internal_ip-listed_example :
    (is_internal_ip reads "10.1.2.3").0 ≡ (listed 10 1 2 && not (benchmark 10 1))
is_internal_ip-listed_example =
    is_internal_ip-listed reads "10.1.2.3" 10 1 2 3 refl refl (omega arith) (omega arith)
      (omega arith) (omega arith)

abbrev three_calls : List (ℕ × ℕ)
three_calls = (5, 1000) ∷ (700, 2000) ∷ (900, 100) ∷ []

consumes_bounded_example :
    ((consumes (new_bucket 0 1000 2000) three_calls).1 * second
      ≤ 2000 * second + ((consumes (new_bucket 0 1000 2000) three_calls).0.last_time - 0) * 1000)
    × ((consumes (new_bucket 0 1000 2000) three_calls).0.tokens ≤ 2000 * second)
consumes_bounded_example =
    consumes_bounded 0 1000 2000 three_calls (omega arith, (omega arith, (omega arith, tt)))

-- Each turn takes a millisecond, its two readings are at the same time.
abbrev steady : ℕ → ℕ
steady j = (j + 1) / 2 * 1000

wait_for_tokens-ends_example : wait_for_tokens 4 steady (new_bucket 0 0 0) 7 3000 ≢ none
wait_for_tokens-ends_example =
    wait_for_tokens-ends steady (new_bucket 0 0 0) 7 3 (omega arith) (λ t. omega arith)
      (λ t. omega arith)

abbrev some_calls : List Call
some_calls = acquires 5 "a" "c" ∷ acquires 6 "a" "d" ∷ releases "a" "c" ∷ []

calls-Within_example : Within (calls (new_tracker 1 10) some_calls)
calls-Within_example = calls-Within 1 10 some_calls

unused : any (λ i. i == "c") (connections (new_tracker 1 10) "a") ≡ false
unfolding new_tracker get_or get
unused = refl

granted : (try_acquire 5 (new_tracker 1 10) "a" "c").1 ≡ true
unfolding new_tracker get_or get try_acquire active_count expire
granted = refl

abbrev conn : ConnectionInfo
conn = record {
  conn_id = "conn-0";
  sandbox_id = "sandbox-a";
  tenant_id = "unknown";
  token_id = "unknown";
  src_host = "a";
  src_port = 4000;
  dest_ip = "10.1.2.3";
  dest_port = 80;
  dest_domain = "";
  protocol = "tcp";
  start_time = 0;
  bytes_sent = 0;
  bytes_received = 0;
  decision = "ALLOW";
}

-- A function in place of the digest
abbrev mark : String → String → String
mark key text = text_append key text

-- What a gateway before has left in the file
abbrev one_written : List Entry
one_written = (write_all mark (new_logger "key" []) ((λ k. k, conn, "opened") ∷ [])).entries

abbrev two_writes : Writes
two_writes = (λ k. k, conn, "opened") ∷ (λ k. k, conn, "closed") ∷ []

write_all-links_example :
    (added : List Entry) × ((write_all mark (new_logger "key" one_written) two_writes).entries
      ≡ one_written ++ added)
    × (length added ≡ length two_writes)
    × (links mark "key" "0000000000000000000000000000000000000000000000000000000000000000" added
          (write_all mark (new_logger "key" one_written) two_writes).last_hash
        ≡ true)
write_all-links_example = write_all-links mark "key" one_written two_writes

abbrev traffic : List Event
traffic = ready true (bytes 900) true true ∷ ready false (bytes 65536) true true ∷ []

abbrev service : TcpProxy
service = (new_service 0 default_config []).0

abbrev world : World
world = record {
  src_host = "a";
  src_port = 4000;
  chunks = (8 ∷ 8 ∷ 8 ∷ []) ∷ (8 ∷ 0 ∷ 80 ∷ []) ∷ [];
  connect_error = none;
  events = traffic;
  clock = λ k. k;
  written = λ k. true;
}

tried-handle_client_example :
    tried (handle_client mark reads world service).1
    ≡ permitted mark reads world service (read_target (recv_exact 6 [] world.chunks))
tried-handle_client_example = tried-handle_client mark reads world service

no_connection_yet :
    any (λ i. i == conn_name service.conn_counter) (connections service.conn_tracker "sandbox-a")
    ≡ false
unfolding new_service new_tracker get_or get
no_connection_yet = refl

handle_client-slot_example :
    connections (handle_client mark reads world service).0.conn_tracker "sandbox-a"
    ≡ connections service.conn_tracker "sandbox-a"
handle_client-slot_example =
    handle_client-slot mark reads world service "sandbox-a" no_connection_yet
