-- ===== src/Gateway/Grants.antt =====
-- What a token bucket grants.
use photon_kernel_sil.Prelude.{
  ℕ, zero, suc, ◌+◌, ◌-◌, ◌*◌, ◌≤◌, Bool, List, [], ◌∷◌, none, ◌≡◌, ◌≢◌, inl, inr, refl, sym, ap,
  subst, ◌∙◌, arith, leb, ltb, Bool-cases, if◌then◌else◌, leb→le,
}
use photon_kernel_sil.Gateway.Types.{second}
use photon_kernel_sil.Gateway.Buckets.{
  TokenBucket, new_bucket, refill, consume, wait_loop, wait_for_tokens,
}

abbrev pub granted_bytes : Bool → ℕ → ℕ
granted_bytes granted bytes_needed = if granted then bytes_needed else 0

-- A sequence of calls of `consume`, each at a time and for a number of bytes: the bucket after them,
-- with the bytes that were granted.
unfoldable pub consumes : TokenBucket → List (ℕ × ℕ) → TokenBucket × ℕ
consumes b [] = (b, 0)
consumes b ((now, bytes_needed) ∷ calls) =
    let (b', granted) = consume now b bytes_needed in
    let (b'', total) = consumes b' calls in (b'', granted_bytes granted bytes_needed + total)

-- The times of the calls do not run back from a first time.
abbrev pub Ordered : ℕ → List (ℕ × ℕ) → Type 0
Ordered start [] = Unit
Ordered start ((now, bytes_needed) ∷ calls) = (start ≤ now) × Ordered now calls

consume_kept :
    (now : ℕ) (b : TokenBucket) (n : ℕ)
    → ((consume now b n).0.rate ≡ b.rate)
      × ((consume now b n).0.max ≡ b.max)
      × ((consume now b n).0.last_time ≡ now)
unfolding consume refill
consume_kept now b n = elim (Bool-cases (leb (n * second) (refill now b).tokens)) [
  | inl e ↦ rw e (refl, refl, refl)
  | inr e ↦ rw e (refl, refl, refl)
]

-- What a call grants, and what it leaves, comes from what was there and what the time added.
consume_balance :
    (now : ℕ) (b : TokenBucket) (n : ℕ)
    → (granted_bytes (consume now b n).1 n * second + (consume now b n).0.tokens
        ≤ b.tokens + (now - b.last_time) * b.rate)
      × ((consume now b n).0.tokens ≤ b.max * second)
unfolding consume refill
consume_balance now b n = elim (Bool-cases (leb (n * second) (refill now b).tokens)) [
  | inl e ↦ let h = leb→le _ _ e in rw e (omega (arith, h), omega (arith, h))
  | inr e ↦ rw e (omega arith, omega arith)
]

times_apart :
    (r start now end : ℕ)
    → start ≤ now
    → now ≤ end
    → (now - start) * r + (end - now) * r ≡ (end - start) * r
times_apart r start now end h k =
    let whole : (now - start) + (end - now) ≡ end - start = omega arith in
    sym (mul_add_right (now - start) (end - now) r) ∙ ap (λ d. d * r) whole
  where
    mul_add_right : (x y z : ℕ) → (x + y) * z ≡ x * z + y * z
    mul_add_right x y z = omega arith

balance_step :
    (granted more left tokens start now end r r' t' last' : ℕ)
    → r' ≡ r
    → last' ≡ start
    → start ≤ now
    → now ≤ end
    → granted * second + left ≤ tokens + (now - last') * r
    → more * second + t' ≤ left + (end - now) * r'
    → (granted + more) * second + t' ≤ tokens + (end - start) * r
balance_step granted more left tokens start now end r r' t' last' e f h k a b =
    let b' : more * second + t' ≤ left + (end - now) * r = rw (sym e) b in
    let a' : granted * second + left ≤ tokens + (now - start) * r = rw (sym f) a in
    omega (arith, times_apart r start now end h k, a', b')

consumes_balance :
    (start : ℕ) (b : TokenBucket) (calls : List (ℕ × ℕ))
    → b.last_time ≡ start
    → Ordered start calls
    → ((consumes b calls).1 * second + (consumes b calls).0.tokens
        ≤ b.tokens + ((consumes b calls).0.last_time - start) * b.rate)
      × (start ≤ (consumes b calls).0.last_time)
unfolding consumes
consumes_balance start b [] e ordered = (omega arith, omega (arith, e))
consumes_balance start b ((now, n) ∷ calls) e ordered =
    let (rate, _, time) = consume_kept now b n in
    let (balance, later) = consumes_balance now (consume now b n).0 calls time ordered.1 in
    (
      balance_step _ _ _ _ _ _ _ _ _ _ _ rate e ordered.0 later (consume_balance now b n).0 balance,
      omega (arith, ordered.0, later),
    )

consumes_held :
    (b : TokenBucket) (calls : List (ℕ × ℕ))
    → b.tokens ≤ b.max * second
    → (consumes b calls).0.tokens ≤ b.max * second
unfolding consumes
consumes_held b [] h = h
consumes_held b ((now, n) ∷ calls) h =
    let (_, size, _) = consume_kept now b n in
    let held = consumes_held (consume now b n).0 calls (rw size (consume_balance now b n).1) in
    subst (λ m. (consumes (consume now b n).0 calls).0.tokens ≤ m * second) size held

-- Whatever the calls of `consume` on a new bucket, at times that do not run back, the bytes they
-- are granted are no more than the size of the bucket and what its rate gives in the time to the
-- last of them. The bucket never holds more than its size.
pub consumes_bounded :
    (start rate size : ℕ) (calls : List (ℕ × ℕ))
    → Ordered start calls
    → let b = (consumes (new_bucket start rate size) calls).0 in
      ((consumes (new_bucket start rate size) calls).1 * second
        ≤ size * second + (b.last_time - start) * rate)
      × (b.tokens ≤ size * second)
unfolding new_bucket
consumes_bounded start rate size calls ordered =
    let (balance, _) = consumes_balance start (new_bucket start rate size) calls refl ordered in
    (omega (arith, balance), consumes_held (new_bucket start rate size) calls (omega arith))

same_place : (k : ℕ) → k + 2 * zero ≡ k
same_place k = omega arith

later_place : (k t : ℕ) → k + 2 * suc t ≡ k + 2 + 2 * t
later_place k t = omega arith

wait_loop-ends :
    (fuel : ℕ) (clock : ℕ → ℕ) (k deadline : ℕ) (b : TokenBucket) (n : ℕ)
    → ((t : ℕ) → clock (k + 2 * t) + 1000 ≤ clock (k + 2 * t + 2))
    → deadline ≤ clock k + fuel * 1000
    → wait_loop (suc fuel) clock k deadline b n ≢ none
unfolding wait_loop
wait_loop-ends zero clock k deadline b n slow h e = elim (Bool-cases (ltb (clock k) deadline)) [
  | inr late ↦ ground arith
  | inl in_time ↦ absurd (ground arith)
]
wait_loop-ends (suc fuel) clock k deadline b n slow h e =
    let first_turn : clock k + 1000 ≤ clock (k + 2) =
      subst (λ j. clock j + 1000 ≤ clock (j + 2)) (same_place k) (slow zero) in
    let next_turn = later_place k in
    let more =
      wait_loop-ends fuel clock (k + 2) deadline (consume (clock (k + 1)) b n).0 n
        (λ t. subst (λ j. clock j + 1000 ≤ clock (j + 2)) (next_turn t) (slow (suc t)))
        (omega (arith, first_turn, h)) in
    elim (Bool-cases (ltb (clock k) deadline)) [
      | inr late ↦ ground arith
      | inl in_time ↦ elim (Bool-cases (consume (clock (k + 1)) b n).1) [
        | inl g ↦ ground arith
        | inr g ↦ more (ground arith)
      ]
    ]

-- The clock is read once for the deadline, and then twice in each turn of the loop: for the test of
-- the deadline and in `consume`, after which the loop sleeps for a millisecond. Where no reading is
-- earlier than the one before it, and the first one of a turn is a millisecond at least after the
-- last one of the turn before, one turn for each millisecond of the timeout and one more are enough
-- fuel: the wait ends.
pub wait_for_tokens-ends :
    (clock : ℕ → ℕ) (b : TokenBucket) (n milliseconds : ℕ)
    → clock 0 ≤ clock 1
    → ((t : ℕ) → clock (2 * t + 1) ≤ clock (2 * t + 2))
    → ((t : ℕ) → clock (2 * t + 2) + 1000 ≤ clock (2 * t + 3))
    → wait_for_tokens (suc milliseconds) clock b n (milliseconds * 1000) ≢ none
unfolding wait_for_tokens
wait_for_tokens-ends clock b n milliseconds h within between =
    wait_loop-ends milliseconds clock 1 (clock 0 + milliseconds * 1000) b n
      (λ t.
        subst (λ j. clock j + 1000 ≤ clock (j + 2)) (odd t)
          (omega (
            arith,
            within t,
            subst (λ j. clock (2 * t + 2) + 1000 ≤ clock j) (third t) (between t),
          )))
      (omega (arith, h))
  where
    odd : (t : ℕ) → 2 * t + 1 ≡ 1 + 2 * t
    odd t = omega arith

    third : (t : ℕ) → 2 * t + 3 ≡ 2 * t + 1 + 2
    third t = omega arith
