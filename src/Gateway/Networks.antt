-- ===== src/Gateway/Networks.antt =====
-- Which addresses are internal.
use photon_kernel_sil.Prelude.{
  ℕ, ◌+◌, ◌*◌, ◌/◌, ◌<◌, String, Bool, true, false, not, ◌&&◌, ◌||◌, List, [], ◌∷◌, Option, some,
  ◌≡◌, inl, inr, refl, sym, ap, ◌∙◌, arith, leb, ◌==◌, nat_eq, string_eq, ==_iff, any, Bool-cases,
}
use photon_kernel_sil.Gateway.Addresses.{
  Address, version_4, dotted, Network, internal_networks, in_network, first_network, is_internal_ip,
}

-- The octets of the networks of the gateway
abbrev reserved : ℕ → ℕ → ℕ → Bool
reserved a b c =
    (a == 10)
    || (((a == 172) && (leb 16 b && leb b 31))
        || (((a == 192) && (b == 168))
            || ((a == 127)
                || (((a == 169) && (b == 254))
                    || ((a == 0)
                        || (((a == 100) && (leb 64 b && leb b 127))
                            || (((a == 192) && ((b == 0) && (c == 0)))
                                || (((a == 192) && ((b == 0) && (c == 2)))
                                    || (((a == 198) && ((b == 51) && (c == 100)))
                                        || (((a == 203) && ((b == 0) && (c == 113)))
                                            || leb 224 a))))))))))

or_cong : {p q r s : Bool} → p ≡ q → r ≡ s → (p || r) ≡ (q || s)
or_cong e f = ground (arith, e, f)

first_network-any :
    (ip : Address) (nets : List Network) → (first_network ip nets).0 ≡ any (in_network ip) nets
unfolding first_network
first_network-any ip [] = refl
first_network-any ip (net ∷ nets) = ground (arith, first_network-any ip nets)

octet_172 :
    (a b : ℕ) → b < 256 → ((a * 16 + b / 16) == 2753) ≡ ((a == 172) && (leb 16 b && leb b 31))
octet_172 a b h = ground arith

octets_16 :
    (a b m n : ℕ) → b < 256 → n < 256 → ((a * 256 + b) == (m * 256 + n)) ≡ ((a == m) && (b == n))
octets_16 a b m n h k = ground arith

octet_100 :
    (a b : ℕ) → b < 256 → ((a * 4 + b / 64) == 401) ≡ ((a == 100) && (leb 64 b && leb b 127))
octet_100 a b h = ground arith

octets_24 :
    (a b c m n o : ℕ)
    → b < 256
    → c < 256
    → n < 256
    → o < 256
    → ((a * 65536 + b * 256 + c) == (m * 65536 + n * 256 + o))
      ≡ ((a == m) && ((b == n) && (c == o)))
octets_24 a b c m n o h k h' k' = ground arith

octet_224 : (a : ℕ) → a < 256 → (((a / 16) == 14) || (((a / 16) == 15) || false)) ≡ leb 224 a
octet_224 a h = ground arith

-- What the prefixes of an address are in its octets
module _ (a b c d : ℕ) (hb : b < 256) (hc : c < 256) (hd : d < 256) where
  prefix_8 : dotted a b c d / 16777216 ≡ a
  prefix_8 = omega arith

  prefix_16 : dotted a b c d / 65536 ≡ a * 256 + b
  prefix_16 = omega arith

  prefix_24 : dotted a b c d / 256 ≡ a * 65536 + b * 256 + c
  prefix_24 = omega arith

  prefix_12 : dotted a b c d / 1048576 ≡ a * 16 + b / 16
  prefix_12 = omega arith

  prefix_10 : dotted a b c d / 4194304 ≡ a * 4 + b / 64
  prefix_10 = omega arith

  prefix_4 : dotted a b c d / 268435456 ≡ a / 16
  prefix_4 = omega arith

  in_networks :
      a < 256 → any (in_network (version_4 (dotted a b c d))) internal_networks ≡ reserved a b c
  unfolding in_network
  in_networks ha =
      rw (prefix_8, prefix_16, prefix_24, prefix_12, prefix_10, prefix_4)
        (or_cong refl (
          or_cong (octet_172 a b hb) (
            or_cong (octets_16 a b 192 168 hb (omega arith)) (
              or_cong refl (
                or_cong (octets_16 a b 169 254 hb (omega arith)) (
                  or_cong refl (
                    or_cong (octet_100 a b hb) (
                      or_cong (octets_24 a b c 192 0 0 hb hc (omega arith) (omega arith)) (
                        or_cong (octets_24 a b c 192 0 2 hb hc (omega arith) (omega arith)) (
                          or_cong (octets_24 a b c 198 51 100 hb hc (omega arith) (omega arith)) (
                            or_cong (octets_24 a b c 203 0 113 hb hc (omega arith) (omega arith))
                              (octet_224 a ha))))))))))))

-- The octets of the networks of IPv4 in `internal_cidrs` of src/sandbox/security_hardening.cpp, the
-- list of the internal networks by which the sandbox validates its tasks
abbrev pub listed : ℕ → ℕ → ℕ → Bool
listed a b c =
    ((a == 10) || ((a == 127) || (a == 0)))
    || (((a == 172) && (leb 16 b && leb b 31))
        || (((a == 192) && (b == 168))
            || (((a == 169) && (b == 254))
                || (((a == 100) && (leb 64 b && leb b 127))
                    || (((a == 192) && ((b == 0) && ((c == 0) || (c == 2))))
                        || (((a == 198) && (leb 18 b && leb b 19))
                            || (((a == 198) && ((b == 51) && (c == 100)))
                                || (((a == 203) && ((b == 0) && (c == 113))) || leb 224 a))))))))

-- The network 198.18.0.0/15
abbrev pub benchmark : ℕ → ℕ → Bool
benchmark a b = (a == 198) && (leb 18 b && leb b 19)

reserved-listed : (a b c : ℕ) → reserved a b c ≡ (listed a b c && not (benchmark a b))
reserved-listed a b c = ground arith

-- Where `ip_address` reads the text as the number of the octets a.b.c.d, and that of the metadata
-- service as its own, the gateway calls the address internal exactly when it is in one of the
-- networks of IPv4 that the sandbox's own list of internal networks names, except 198.18.0.0/15.
pub is_internal_ip-listed :
    (ip_address : String → Option Address) (text : String) (a b c d : ℕ)
    → ip_address text ≡ some (version_4 (dotted a b c d))
    → ip_address "169.254.169.254" ≡ some (version_4 (dotted 169 254 169 254))
    → a < 256
    → b < 256
    → c < 256
    → d < 256
    → (is_internal_ip ip_address text).0 ≡ (listed a b c && not (benchmark a b))
unfolding is_internal_ip
is_internal_ip-listed ip_address text a b c d read metadata ha hb hc hd =
    let networks =
      first_network-any (version_4 (dotted a b c d)) internal_networks
      ∙ in_networks a b c d hb hc hd ha
      ∙ reserved-listed a b c in
    elim (Bool-cases ("169.254.169.254" == text)) [
      | inl m ↦
          let same_text = (==_iff "169.254.169.254" text).0 m in
          let same = sym metadata ∙ ap ip_address same_text ∙ read in
          rw (read, m, is_internal_ip)
            (metadata_reserved a b c d ha hb hc hd (numbers _ _ same) ∙ reserved-listed a b c)
      | inr m ↦ rw (read, m, is_internal_ip) networks
    ]
  where
    numbers : (m n : ℕ) → some (version_4 m) ≡ some (version_4 n) → m ≡ n
    numbers m n e = ground arith

    metadata_reserved :
        (a b c d : ℕ)
        → a < 256
        → b < 256
        → c < 256
        → d < 256
        → dotted 169 254 169 254 ≡ dotted a b c d
        → true ≡ reserved a b c
    metadata_reserved a b c d ha hb hc hd h =
        let e : a ≡ 169 = omega arith in let f : b ≡ 254 = omega arith in rw (e, f) refl
