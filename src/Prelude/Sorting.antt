-- ===== src/Prelude/Sorting.antt =====
-- Stable sorting by insertion, as `sorted` and `list.sort` order a list, and tallies.
use Prim.Native.Nat.{ℕ, ◌+◌}
use Prim.Native.String.{String}
use mathlib.Core.Bool.{Bool}
use mathlib.Core.List.{List, [], ◌∷◌}
use mathlib.Core.Path.{◌≡◌, refl}
use mathlib.Core.Logic.{inl, inr}
use native.Mathlib.Omega.{arith}
use photon_kernel_sil.Prelude.Lists.{any, count, All}
use photon_kernel_sil.Prelude.Tests.{if◌then◌else◌, ◌==◌, string_eq, Bool-cases, ==_iff}
use photon_kernel_sil.Prelude.Dict.{Dict, get_or, put, get_or-put}

module _ {ℓ} {A : Type ℓ} (before : A → A → Bool) where
  -- `before x y`: an x inserted ahead of y goes before it. An order that holds of equal keys makes
  -- the sort stable.
  unfoldable pub insert_by : A → List A → List A
  insert_by x [] = x ∷ []
  insert_by x (y ∷ ys) = let rest = insert_by x ys in if before x y then x ∷ y ∷ ys else y ∷ rest

  unfoldable pub sort_by : List A → List A
  sort_by [] = []
  sort_by (x ∷ xs) = insert_by x (sort_by xs)

  count-insert_by :
      (p : A → Bool) (x : A) (ys : List A) → count p (insert_by x ys) ≡ count p (x ∷ ys)
  unfolding insert_by
  count-insert_by p x [] = refl
  count-insert_by p x (y ∷ ys) = ground (arith, count-insert_by p x ys)

  -- A sorted list has the same elements, each as often.
  pub count-sort_by : (p : A → Bool) (xs : List A) → count p (sort_by xs) ≡ count p xs
  unfolding sort_by
  count-sort_by p [] = refl
  count-sort_by p (x ∷ xs) = ground (arith, count-insert_by p x (sort_by xs), count-sort_by p xs)

  any-insert_by : (p : A → Bool) (x : A) (ys : List A) → any p (insert_by x ys) ≡ any p (x ∷ ys)
  unfolding insert_by
  any-insert_by p x [] = refl
  any-insert_by p x (y ∷ ys) = ground (arith, any-insert_by p x ys)

  pub any-sort_by : (p : A → Bool) (xs : List A) → any p (sort_by xs) ≡ any p xs
  unfolding sort_by
  any-sort_by p [] = refl
  any-sort_by p (x ∷ xs) = ground (arith, any-insert_by p x (sort_by xs), any-sort_by p xs)

  pub All-sort_by {κ} : (P : A → Type κ) (xs : List A) → All P xs → All P (sort_by xs)
  unfolding sort_by insert_by
  All-sort_by P [] h = tt
  All-sort_by P (x ∷ xs) h = insert (sort_by xs) (All-sort_by P xs h.1)
    where
      insert : (ys : List A) → All P ys → All P (insert_by x ys)
      insert [] k = (h.0, tt)
      insert (y ∷ ys) k = elim (Bool-cases (before x y)) [
        | inl e ↦ rw e (h.0, k)
        | inr e ↦ rw e (k.0, insert ys k.1)
      ]

-- `counts[key] += 1` for each key, from 0
unfoldable pub tally : Dict String ℕ → List String → Dict String ℕ
tally counts [] = counts
tally counts (key ∷ keys) = tally (put counts key (get_or counts key 0 + 1)) keys

pub get_or-tally :
    (counts : Dict String ℕ) (keys : List String) (k : String)
    → get_or (tally counts keys) k 0 ≡ get_or counts k 0 + count (λ key. key == k) keys
unfolding tally
get_or-tally counts [] k = omega arith
get_or-tally counts (key ∷ keys) k = ground (
  arith,
  get_or-tally (put counts key (get_or counts key 0 + 1)) keys k,
  get_or-put counts key k (get_or counts key 0 + 1) 0,
  ==_iff key k,
)
