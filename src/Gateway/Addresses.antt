-- ===== src/Gateway/Addresses.antt =====
-- server/gateway/isolation_gateway.py: `INTERNAL_NETWORKS`, `METADATA_IPS`, `is_internal_ip`. The
-- module `ipaddress` reads a text as an address: a number below 2 ^ 32, or one of version 6, which
-- is in no network of version 4.
use photon_kernel_sil.Prelude.{
  ℕ, ◌+◌, ◌*◌, ◌/◌, String, Bool, true, false, List, [], ◌∷◌, Option, none, some, ◌==◌, nat_eq,
  string_eq, any, if◌then◌else◌,
}
use photon_kernel_sil.Prelude.Text.{text_append}

pub data Address : Type 0 where
  version_4 : ℕ → Address
  version_6 : ℕ → Address

-- a.b.c.d as a number
abbrev pub dotted : ℕ → ℕ → ℕ → ℕ → ℕ
dotted a b c d = a * 16777216 + b * 65536 + c * 256 + d

-- A network: the text that it prints, its address and the size of its block, 2 ^ (32 - prefix).
pub record Network : Type 0 where
  pub text : String
  pub address : ℕ
  pub block : ℕ

abbrev network : String → ℕ → ℕ → Network
network text address block = record { text = text; address = address; block = block }

abbrev pub internal_networks : List Network
internal_networks =
    network "10.0.0.0/8" (dotted 10 0 0 0) 16777216
    ∷ network "172.16.0.0/12" (dotted 172 16 0 0) 1048576
    ∷ network "192.168.0.0/16" (dotted 192 168 0 0) 65536
    ∷ network "127.0.0.0/8" (dotted 127 0 0 0) 16777216
    ∷ network "169.254.0.0/16" (dotted 169 254 0 0) 65536
    ∷ network "0.0.0.0/8" (dotted 0 0 0 0) 16777216
    ∷ network "100.64.0.0/10" (dotted 100 64 0 0) 4194304
    ∷ network "192.0.0.0/24" (dotted 192 0 0 0) 256
    ∷ network "192.0.2.0/24" (dotted 192 0 2 0) 256
    ∷ network "198.51.100.0/24" (dotted 198 51 100 0) 256
    ∷ network "203.0.113.0/24" (dotted 203 0 113 0) 256
    ∷ network "224.0.0.0/4" (dotted 224 0 0 0) 268435456
    ∷ network "240.0.0.0/4" (dotted 240 0 0 0) 268435456
    ∷ []

-- `ip in net`: the bits of the prefix agree.
unfoldable pub in_network : Address → Network → Bool
in_network (version_4 n) net = (n / net.block) == (net.address / net.block)
in_network (version_6 n) net = false

abbrev pub metadata_ips : List String
metadata_ips = "169.254.169.254" ∷ []

-- the loop over the networks
unfoldable pub first_network : Address → List Network → Bool × String
first_network ip [] = (false, "public")
first_network ip (net ∷ nets) =
    let rest = first_network ip nets in
    if in_network ip net then (true, text_append "internal network " net.text) else rest

unfoldable pub is_internal_ip : (String → Option Address) → String → Bool × String
is_internal_ip ip_address ip_str = elim (ip_address ip_str) [
  | none ↦ (false, "invalid ip")
  | some ip ↦
      if any (λ m. m == ip_str) metadata_ips
      then (true, "cloud metadata (HIGH RISK)")
      else first_network ip internal_networks
]
