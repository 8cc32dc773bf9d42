-- ===== src/Sessions/Isolation.antt =====
-- What a tenant's calls can reach, and the index of the tenants.
use photon_kernel_sil.Prelude.{string_eq}
