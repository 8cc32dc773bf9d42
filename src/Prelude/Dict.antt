-- ===== src/Prelude/Dict.antt =====
-- Python's `dict`: an association list in insertion order. Storing at a key that is there keeps the
-- place of the key, and a new key goes to the end, as iteration over a dict shows it.
use mathlib.Core.List.{List, [], ◌∷◌}
use mathlib.Core.Option.{Option, none, some}
use Prim.Native.Nat.{◌+◌}
use mathlib.Core.Logic.{◌≢◌, inl, inr}
use mathlib.Core.Path.{◌≡◌, refl, sym, subst}
use native.Mathlib.Omega.{arith}
use photon_kernel_sil.Prelude.Lists.{length, All}
use photon_kernel_sil.Prelude.Tests.{Bool-cases, Eq, ◌==◌, if◌then◌else◌}

abbrev pub Dict {ℓ κ} : Type ℓ → Type κ → Type (ℓ ⊔ κ)
Dict K V = List (K × V)

module _ {ℓ κ} {K : Type ℓ} {V : Type κ} where
  -- `d.values()`
  abbrev pub values : Dict K V → List V
  values [] = []
  values ((k, v) ∷ d) = v ∷ values d

  -- `d.keys()`
  abbrev pub keys : Dict K V → List K
  keys [] = []
  keys ((k, v) ∷ d) = k ∷ keys d

module _ {ℓ κ} {K : Type ℓ} {V : Type κ} ⦃e : Eq K⦄ where
  -- `d.get(k)`
  unfoldable pub get : Dict K V → K → Option V
  get [] k = none
  get ((j, v) ∷ d) k = if j == k then some v else get d k

  -- `d[k] = v`
  unfoldable pub put : Dict K V → K → V → Dict K V
  put [] k v = (k, v) ∷ []
  put ((j, w) ∷ d) k v = let rest = put d k v in if j == k then (j, v) ∷ d else (j, w) ∷ rest

  -- `d.get(k, default)`
  unfoldable pub get_or : Dict K V → K → V → V
  get_or d k default = elim (get d k) [ none ↦ default | some v ↦ v ]

  pub get-put :
      (d : Dict K V) (k j : K) (v : V) → get (put d k v) j ≡ (if k == j then some v else get d j)
  unfolding get put
  get-put [] k j v = refl
  get-put ((i, w) ∷ d) k j v =
      ground (arith, get-put d k j v, e.same_iff i k, e.same_iff i j, e.same_iff k j)

  pub get-put_self : (d : Dict K V) (k : K) (v : V) → get (put d k v) k ≡ some v
  get-put_self d k v = ground (arith, get-put d k k v, e.same_iff k k)

  pub get_or-put :
      (d : Dict K V) (k j : K) (v w : V)
      → get_or (put d k v) j w ≡ (if k == j then v else get_or d j w)
  unfolding get_or
  get_or-put d k j v w = ground (arith, get-put d k j v)

module _ {ℓ κ μ} {K : Type ℓ} {V : Type κ} ⦃e : Eq K⦄ (P : K → V → Type μ) where
  -- every entry satisfies a relation of its key and its value
  abbrev pub Entries : Dict K V → Type μ
  Entries d = All (λ entry. P entry.0 entry.1) d

  pub Entries-put : (d : Dict K V) (k : K) (v : V) → Entries d → P k v → Entries (put d k v)
  unfolding put
  Entries-put [] k v h p = (p, tt)
  Entries-put ((j, w) ∷ d) k v h p = elim (Bool-cases (j == k)) [
    | inl here ↦ rw here (subst (λ i. P i v) (sym ((e.same_iff j k).0 here)) p, h.1)
    | inr there ↦ rw there (h.0, Entries-put d k v h.1 p)
  ]

  pub Entries-get : (d : Dict K V) (k : K) (v : V) → Entries d → get d k ≡ some v → P k v
  unfolding get
  Entries-get [] k v h g = cc
  Entries-get ((j, w) ∷ d) k v h g = elim (Bool-cases (j == k)) [
    | inl here ↦
        let same_value : w ≡ v = ground arith in
        subst (P k) same_value (subst (λ i. P i w) ((e.same_iff j k).0 here) h.0)
    | inr there ↦ Entries-get d k v h.1 (ground arith)
  ]

module _ {ℓ κ} {K : Type ℓ} {V : Type κ} ⦃e : Eq K⦄ where
  -- a key that no entry has
  pub get-absent : (d : Dict K V) (k : K) → All (λ (entry : K × V). entry.0 ≢ k) d → get d k ≡ none
  unfolding get
  get-absent [] k h = refl
  get-absent ((j, w) ∷ d) k h = ground (arith, get-absent d k h.1, e.same_iff j k, h.0)

  pub length-put_new :
      (d : Dict K V) (k : K) (v : V) → get d k ≡ none → length (put d k v) ≡ length d + 1
  unfolding get put
  length-put_new [] k v g = omega arith
  length-put_new ((j, w) ∷ d) k v g = ground (arith, length-put_new d k v)

  pub length-put_old :
      (d : Dict K V) (k : K) (v w : V) → get d k ≡ some w → length (put d k v) ≡ length d
  unfolding get put
  length-put_old [] k v w g = cc
  length-put_old ((j, x) ∷ d) k v w g = ground (arith, length-put_old d k v w)

  -- `del d[k]` and `d.pop(k, None)`: a dict has one entry for a key, and here all go.
  unfoldable pub delete : Dict K V → K → Dict K V
  delete [] k = []
  delete ((j, v) ∷ d) k = let rest = delete d k in if j == k then rest else (j, v) ∷ rest

  pub get-delete :
      (d : Dict K V) (k j : K) → get (delete d k) j ≡ (if k == j then none else get d j)
  unfolding get delete
  get-delete [] k j = ground arith
  get-delete ((i, w) ∷ d) k j =
      ground (arith, get-delete d k j, e.same_iff i k, e.same_iff i j, e.same_iff k j)

  pub get_or-delete :
      (d : Dict K V) (k j : K) (w : V)
      → get_or (delete d k) j w ≡ (if k == j then w else get_or d j w)
  unfolding get_or
  get_or-delete d k j w = ground (arith, get-delete d k j)

  pub get_or-none : (d : Dict K V) (k : K) (w : V) → get d k ≡ none → get_or d k w ≡ w
  unfolding get_or
  get_or-none d k w h = rw (h, get_or) refl

  pub get_or-some : (d : Dict K V) (k : K) (v w : V) → get d k ≡ some v → get_or d k w ≡ v
  unfolding get_or
  get_or-some d k v w h = rw (h, get_or) refl
