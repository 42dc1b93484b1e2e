-- ===== src/Common/Family.antt =====
-- Families indexed by thread number: a write at one index.
use a2pm.Common.{
  ℕ, zero, suc, ◌+◌, ◌≤◌, ◌<◌, ◌≡◌, ◌≢◌, refl, ap, arith, inl, inr, Bool, true, false, Bool-cases,
  ==_iff, ◌==◌, if◌then◌else◌,
}

module _ {ℓ} {A : Type ℓ} where
  abbrev pub update : (ℕ → A) → ℕ → A → ℕ → A
  update f i a j = if i == j then a else f j

  pub update_self : (f : ℕ → A) (i : ℕ) (a : A) → update f i a i ≡ a
  update_self f i a = ground arith

  pub update_other : (f : ℕ → A) (i j : ℕ) (a : A) → i ≢ j → update f i a j ≡ f j
  update_other f i j a h = ground arith

-- How many of the first `n` indices pass a test.
unfoldable pub count : ℕ → (ℕ → Bool) → ℕ
count zero p = 0
count (suc n) p = count n p + (if p n then 1 else 0)

abbrev pub AgreeBut : ℕ → (ℕ → Bool) → (ℕ → Bool) → Type 0
AgreeBut i p q = (j : ℕ) → j ≢ i → q j ≡ p j

pub count-agree_above : (n i : ℕ) (p q : ℕ → Bool) → AgreeBut i p q → n ≤ i → count n q ≡ count n p
unfolding count
count-agree_above zero i p q same h = refl
count-agree_above (suc n) i p q same h =
    rw (same n (λ e. absurd (omega arith)), count-agree_above n i p q same (omega arith))

-- A change at one index below `n` changes the count by that index alone.
pub count-agree :
    (n i : ℕ) (p q : ℕ → Bool)
    → AgreeBut i p q
    → i < n
    → count n q + (if p i then 1 else 0) ≡ count n p + (if q i then 1 else 0)
unfolding count
count-agree zero i p q same h = absurd (omega arith)
count-agree (suc n) i p q same h = elim (Bool-cases (n == i)) [
  | inl here ↦
      let e : n ≡ i = (==_iff n i).0 here in rw e (omega (arith, count-agree_above i i p q same))
  | inr below ↦
      rw (same n (λ e. ground arith)) (omega (arith, count-agree n i p q same (ground arith)))
]

pub count-le : (n : ℕ) (p : ℕ → Bool) → count n p ≤ n
unfolding count
count-le zero p = omega arith
count-le (suc n) p = ground (arith, count-le n p)

pub count-none_below : (n : ℕ) (p : ℕ → Bool) → ((i : ℕ) → i < n → p i ≡ false) → count n p ≡ 0
unfolding count
count-none_below zero p h = refl
count-none_below (suc n) p h =
    rw (h n (omega arith), count-none_below n p (λ j lt. h j (omega arith))) refl

pub count-none : (n : ℕ) (p : ℕ → Bool) → ((i : ℕ) → p i ≡ false) → count n p ≡ 0
count-none n p h = count-none_below n p (λ i lt. h i)

-- One index that passes, and two different ones.
pub count-one : (n i : ℕ) (p : ℕ → Bool) → i < n → p i ≡ true → 1 ≤ count n p
unfolding count
count-one zero i p h e = absurd (omega arith)
count-one (suc n) i p h e = elim (Bool-cases (n == i)) [
  | inl here ↦
      let same : n ≡ i = (==_iff n i).0 here in let hit : p n ≡ true = rw same e in ground arith
  | inr below ↦ ground (arith, count-one n i p)
]

pub count-two : (n i j : ℕ) (p : ℕ → Bool) → i < j → j < n → p i ≡ true → p j ≡ true → 2 ≤ count n p
unfolding count
count-two zero i j p l h e f = absurd (omega arith)
count-two (suc n) i j p l h e f = elim (Bool-cases (n == j)) [
  | inl here ↦
      let same : n ≡ j = (==_iff n j).0 here in
      let hit : p n ≡ true = rw same f in ground (arith, count-one n i p)
  | inr below ↦ ground (arith, count-two n i j p l)
]

-- If at most the index `i` can pass, the count is at most 1.
pub count-at_most_one :
    (n : ℕ) (p : ℕ → Bool) → ((i j : ℕ) → p i ≡ true → p j ≡ true → i ≡ j) → count n p ≤ 1
unfolding count
count-at_most_one zero p h = omega arith
count-at_most_one (suc n) p h = elim (Bool-cases (p n)) [
  | inl hit ↦ rw hit (
      omega (
        arith,
        count-none_below n p (λ j lt. elim (Bool-cases (p j)) [
          | inl e ↦ absurd (omega (arith, h j n e hit))
          | inr e ↦ e
        ]),
      ))
  | inr miss ↦ rw miss (omega (arith, count-at_most_one n p h))
]

-- The last of `m + 1` indices takes the place of the index `i`.
pub count-move_last :
    (m i : ℕ) (p q : ℕ → Bool)
    → AgreeBut i p q
    → (i < m → q i ≡ p m)
    → i < suc m
    → count m q + (if p i then 1 else 0) ≡ count (suc m) p
unfolding count
count-move_last m i p q same moved h = elim (Bool-cases (i == m)) [
  | inl last ↦
      let e : i ≡ m = (==_iff i m).0 last in
      let pe : p i ≡ p m = ap p e in ground (arith, count-agree_above m i p q same (omega arith))
  | inr below ↦
      let lt : i < m = ground arith in ground (arith, count-agree m i p q same lt, moved lt)
]

pub count-suc : (n : ℕ) (p : ℕ → Bool) → count (suc n) p ≡ count n p + (if p n then 1 else 0)
unfolding count
count-suc n p = refl
