-- ===== src/Rules/Places.antt =====
-- Places in a list: what stands at one, and the list with another element there.
use photon_kernel_sil.Prelude.{
  ℕ, zero, suc, List, [], ◌∷◌, ◌++◌, Option, none, some, ◌≡◌, refl, subst, arith, ◌==◌, nat_eq, All,
  length, if◌then◌else◌,
}

module _ {A : Type 0} where
  abbrev pub at : List A → ℕ → Option A
  at [] i = none
  at (x ∷ xs) zero = some x
  at (x ∷ xs) (suc i) = at xs i

  abbrev pub set_at : List A → ℕ → A → List A
  set_at [] i y = []
  set_at (x ∷ xs) zero y = y ∷ xs
  set_at (x ∷ xs) (suc i) y = x ∷ set_at xs i y

  pub at-set_at :
      (xs : List A) (i j : ℕ) (x y : A)
      → at xs i ≡ some x
      → at (set_at xs i y) j ≡ (if i == j then some y else at xs j)
  at-set_at [] i j x y h = cc
  at-set_at (z ∷ xs) zero zero x y h = ground arith
  at-set_at (z ∷ xs) zero (suc j) x y h = ground arith
  at-set_at (z ∷ xs) (suc i) zero x y h = ground arith
  at-set_at (z ∷ xs) (suc i) (suc j) x y h = ground (arith, at-set_at xs i j x y h)

  pub at-append : (xs : List A) (y : A) → at (xs ++ y ∷ []) (length xs) ≡ some y
  at-append [] y = refl
  at-append (x ∷ xs) y = at-append xs y

  pub at-append_old :
      (xs : List A) (y z : A) (i : ℕ) → at xs i ≡ some z → at (xs ++ y ∷ []) i ≡ some z
  at-append_old [] y z i h = cc
  at-append_old (x ∷ xs) y z zero h = h
  at-append_old (x ∷ xs) y z (suc i) h = at-append_old xs y z i h

  pub All-at {κ} :
      (P : A → Type κ) (xs : List A) (i : ℕ) (x : A) → All P xs → at xs i ≡ some x → P x
  All-at P [] i x h e = cc
  All-at P (y ∷ xs) zero x h e = subst P (ground arith) h.0
  All-at P (y ∷ xs) (suc i) x h e = All-at P xs i x h.1 e

  pub All-set_at {κ} :
      (P : A → Type κ) (xs : List A) (i : ℕ) (y : A) → All P xs → P y → All P (set_at xs i y)
  All-set_at P [] i y h p = tt
  All-set_at P (x ∷ xs) zero y h p = (p, h.1)
  All-set_at P (x ∷ xs) (suc i) y h p = (h.0, All-set_at P xs i y h.1 p)
