-- ===== src/Sessions/Invariant.antt =====
-- The index of the tenants over the histories of a manager.
use photon_kernel_sil.Prelude.{
  String, Bool, false, not, ◌&&◌, ◌||◌, List, [], ◌∷◌, ◌++◌, Option, none, some, ◌≡◌, inl, inr,
  refl, sym, ap, ◌∙◌, arith, ◌==◌, string_eq, ==_iff, any, Bool-cases, Option-cases,
}
use photon_kernel_sil.Prelude.Dict.{
  Dict, get, get_or, get_or-none, get_or-some, get-put, get_or-put, get-delete,
}
use photon_kernel_sil.Sessions.Types.{SessionState, SessionStateManager}
use photon_kernel_sil.Sessions.Lifecycle.{add, discard}
use photon_kernel_sil.Sessions.Effects.{Move, same, changed, added, removed, unlisted}

-- Whether the session that was found is one of the tenant
abbrev pub owned : Option SessionState → String → Bool
owned none tenant_id = false
owned (some s) tenant_id = s.tenant_id == tenant_id

-- The id is among those of the tenant in the index.
abbrev pub listed : Dict String (List String) → String → String → Bool
listed index tenant_id id = any (λ i. i == id) (get_or index tenant_id [])

-- Each session stands under its own id, and the index has exactly the ids of a tenant's sessions.
pub record IsIndexed (m : SessionStateManager) : Type 0 where
  pub filed : (id : String) (s : SessionState) → get m.sessions id ≡ some s → s.session_id ≡ id
  pub agree :
      (tenant_id id : String)
      → listed m.tenant_sessions tenant_id id ≡ owned (get m.sessions id) tenant_id

any-append :
    (p : String → Bool) (xs : List String) (y : String) → any p (xs ++ y ∷ []) ≡ (any p xs || p y)
any-append p [] y = ground arith
any-append p (x ∷ xs) y = ground (arith, any-append p xs y)

any-add :
    (ids : List String) (id j : String)
    → any (λ i. i == j) (add ids id) ≡ (any (λ i. i == j) ids || (id == j))
unfolding add
any-add ids id j = elim (Bool-cases (any (λ i. i == id) ids)) [
  | inl e ↦ elim (Bool-cases (id == j)) [
    | inl q ↦
        let same_id = (==_iff id j).0 q in
        rw (e, q) (ground (arith, ap (λ k. any (λ i. i == k) ids) same_id))
    | inr q ↦ rw (e, q) (ground arith)
  ]
  | inr e ↦ rw e (any-append (λ i. i == j) ids id)
]

any-discard :
    (ids : List String) (id j : String)
    → any (λ i. i == j) (discard ids id) ≡ (any (λ i. i == j) ids && not (id == j))
unfolding discard
any-discard [] id j = refl
any-discard (i ∷ ids) id j =
    ground (arith, any-discard ids id j, ==_iff i id, ==_iff i j, ==_iff id j)

listed-unlisted :
    (index : Dict String (List String)) (tenant_id session_id t j : String)
    → listed (unlisted index tenant_id session_id) t j
      ≡ (listed index t j && not ((tenant_id == t) && (session_id == j)))
listed-unlisted index tenant_id session_id t j = elim (Option-cases (get index tenant_id)) [
  | inl e ↦ elim (Bool-cases (tenant_id == t)) [
    | inl q ↦
        let same_tenant = (==_iff tenant_id t).0 q in
        ground (arith, get_or-none index t [] (ap (get index) (sym same_tenant) ∙ e))
    | inr q ↦ ground arith
  ]
  | inr (ids, e) ↦ elim (Bool-cases (tenant_id == t)) [
    | inl q ↦
        let same_tenant = (==_iff tenant_id t).0 q in
        let full = get_or-some index t ids [] (ap (get index) (sym same_tenant) ∙ e) in
        ground (
          arith,
          get_or-put index tenant_id t (discard ids session_id) [],
          full,
          any-discard ids session_id j,
        )
    | inr q ↦ ground (arith, get_or-put index tenant_id t (discard ids session_id) [])
  ]
]

pub Move-IsIndexed :
    (tenant : Option String) (m m' : SessionStateManager)
    → Move tenant m m'
    → IsIndexed m
    → IsIndexed m'
Move-IsIndexed tenant m m' (same e f) v = record {
  filed = λ id s g. v.filed id s (rw (← e) g);
  agree = λ t id. rw (e, f) (v.agree t id);
}
Move-IsIndexed tenant m m' (changed j s u found may keeps e f) v = record {
  filed = λ id r g. ground (
    arith,
    ap (λ d. get d id) e,
    get-put m.sessions j id u,
    v.filed id r,
    v.filed j s found,
    keeps.id,
    ==_iff j id,
  );
  agree = λ t id.
      rw (e, f)
        (ground (arith, v.agree t id, get-put m.sessions j id u, keeps.tenant, ==_iff j id));
}
Move-IsIndexed tenant m m' (added s absent may e f) v = record {
  filed = λ id r g. ground (
    arith,
    ap (λ d. get d id) e,
    get-put m.sessions s.session_id id s,
    v.filed id r,
    ==_iff s.session_id id,
  );
  agree = λ t id. ground (
    arith,
    ap (λ d. get d id) e,
    ap (λ d. listed d t id) f,
    get-put m.sessions s.session_id id s,
    get_or-put m.tenant_sessions s.tenant_id t
        (add (get_or m.tenant_sessions s.tenant_id []) s.session_id) [],
    any-add (get_or m.tenant_sessions s.tenant_id []) s.session_id id,
    v.agree t id,
    v.agree s.tenant_id s.session_id,
    ap (λ o. owned o t) absent,
    ==_iff s.session_id id,
    ==_iff s.tenant_id t,
  );
}
Move-IsIndexed tenant m m' (removed j s found may e f) v = record {
  filed = λ id r g.
      ground (arith, ap (λ d. get d id) e, get-delete m.sessions j id, v.filed id r, ==_iff j id);
  agree = λ t id. ground (
    arith,
    ap (λ d. get d id) e,
    ap (λ d. listed d t id) f,
    get-delete m.sessions j id,
    listed-unlisted m.tenant_sessions s.tenant_id j t id,
    v.agree t id,
    found,
    ==_iff j id,
  );
}
