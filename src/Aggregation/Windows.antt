-- ===== src/Aggregation/Windows.antt =====
-- `aggregate` against a description of its output: how a run is cut into windows, and what the
-- aggregated node of a window holds, field by field.
pub mod Loop
use mathlib.Core.List.{append_assoc}
use a2pm.Common.{
  ℕ, suc, ◌+◌, ◌/◌, ◌%◌, ◌^◌, ◌<◌, ◌≡◌, ◌⊎◌, refl, sym, ap, ◌∙◌, inl, inr, arith, Bool, true, false,
  ◌||◌, List, [], ◌∷◌, ◌++◌, map, ◌==◌, Bool-cases, length, length-append,
}
use a2pm.Aggregation.{
  Real, Metrics, Point, Aggregate, with_each, with_both, all_fields, ok, add_int, Progress,
  as_doubles, complete, emit, compute_rttc_at, accumulate, closes, aggregate_point,
  aggregate_points,
}
use mathlib.Core.Path.{fun_ext}

-- The datapoints of a window, and the one that closes it and opens the next.
pub record Window (W : Type 0) : Type 0 where
  pub first : Point W
  pub inside : List (Point W)
  pub closing : Point W

abbrev pub sum : List ℕ → ℕ
sum [] = 0
sum (x ∷ xs) = x + sum xs

-- The fields by which a datapoint is read.
abbrev pub fields : {W : Type 0} → Metrics (Metrics ℕ W → ℕ) (Metrics ℕ W → W)
fields = record {
  n_th = λ m. m.n_th;
  mem_used = λ m. m.mem_used;
  mem_free = λ m. m.mem_free;
  mem_shared = λ m. m.mem_shared;
  mem_buffers = λ m. m.mem_buffers;
  mem_cached = λ m. m.mem_cached;
  swap_used = λ m. m.swap_used;
  swap_free = λ m. m.swap_free;
  cpu_user = λ m. m.cpu_user;
  cpu_nice = λ m. m.cpu_nice;
  cpu_system = λ m. m.cpu_system;
  cpu_iowait = λ m. m.cpu_iowait;
  cpu_steal = λ m. m.cpu_steal;
  cpu_idle = λ m. m.cpu_idle;
}

module _ {W : Type 0} ⦃d : Real W⦄ where
  abbrev pub double_sum : W → List W → W
  double_sum acc [] = acc
  double_sum acc (x ∷ xs) = double_sum (d.plus acc x) xs

  abbrev pub column : {A : Type 0} → (Metrics ℕ W → A) → List (Point W) → List A
  column f [] = []
  column f (p ∷ ps) = f p.values ∷ column f ps

  -- The mean of an `int` field, rounded down, and that of a `double` field.
  abbrev pub mean_int : (Metrics ℕ W → ℕ) → List (Point W) → ℕ
  mean_int f ps = sum (column f ps) % 2 ^ 32 / length ps

  abbrev pub mean_double : (Metrics ℕ W → W) → List (Point W) → W
  mean_double f ps = d.over (double_sum d.nought (column f ps)) (d.of_unsigned (length ps))

  -- The aggregated node of a window in a run that ends at `tail`.
  abbrev pub summary : (tail : Point W) → Window W → Aggregate W
  summary tail w =
      let points = w.first ∷ w.inside in
      let n = d.of_unsigned (length points) in
      let slope = λ (x y : W). d.over (d.minus x y) (d.negate n) in
      record {
        key = d.minus tail.key w.first.key;
        generation_time = d.over (d.minus w.closing.key w.first.key) n;
        slopes = with_both slope slope (as_doubles w.first.values) (as_doubles w.closing.values);
        averages = with_each (λ f. mean_int f points) (λ f. mean_double f points) fields;
      }

  -- Further than a step from the start of the window.
  abbrev pub is_far : (first : Point W) → Point W → Bool
  is_far first p = d.gt (d.fabs (d.minus p.key first.key)) d.aggregation_step

  abbrev pub AreNear : (first : Point W) → List (Point W) → Type 0
  AreNear first [] = Unit {0}
  AreNear first (p ∷ ps) = (is_far first p ≡ false) × AreNear first ps

  -- How a run is cut: a window ends at the first datapoint that is far from its start, or at the
  -- tail; this datapoint starts the next one. The tail is in no window.
  pub data Windows : List (Point W) → List (Window W) → Type 0 where
    at_tail : (p : Point W) → Windows (p ∷ []) []
    window :
        (w : Window W) (rest : List (Point W)) {run : List (Point W)} {ws : List (Window W)}
        → run ≡ w.first ∷ (w.inside ++ w.closing ∷ rest)
        → AreNear w.first w.inside
        → (is_far w.first w.closing ≡ true) ⊎ (rest ≡ [])
        → Windows (w.closing ∷ rest) ws
        → Windows run (w ∷ ws)
