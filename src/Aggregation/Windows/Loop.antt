-- ===== src/Aggregation/Windows/Loop.antt =====
-- The loop of `aggregate` cuts a run into windows and sums each of them.
use mathlib.Core.List.{append_assoc}
use a2pm.Common.{
  ℕ, suc, ◌+◌, ◌/◌, ◌%◌, ◌^◌, ◌<◌, ◌≡◌, refl, sym, ap, ◌∙◌, inl, inr, arith, Bool, true, false,
  ◌||◌, List, [], ◌∷◌, ◌++◌, map, ◌==◌, Bool-cases, length, length-append,
}
use a2pm.Aggregation.{
  Real, Metrics, Point, Aggregate, with_each, with_both, all_fields, ok, add_int, Progress,
  as_doubles, complete, emit, compute_rttc_at, accumulate, closes, aggregate_point,
  aggregate_points,
}
use mathlib.Core.Path.{fun_ext}
use a2pm.Aggregation.Windows.{
  Window, sum, fields, double_sum, column, mean_int, mean_double, summary, is_far, AreNear, Windows,
  at_tail, window,
}

abbrev sum_from : ℕ → List ℕ → ℕ
sum_from acc [] = acc
sum_from acc (x ∷ xs) = sum_from (add_int acc x) xs

sum_from-sum : (acc : ℕ) (xs : List ℕ) → acc < 2 ^ 32 → sum_from acc xs ≡ (acc + sum xs) % 2 ^ 32
sum_from-sum acc [] h = omega arith
sum_from-sum acc (x ∷ xs) h = omega (arith, sum_from-sum (add_int acc x) xs)

sum_from_zero : (xs : List ℕ) → sum_from 0 xs ≡ sum xs % 2 ^ 32
sum_from_zero xs = omega (arith, sum_from-sum 0 xs)

pub or_true : (b : Bool) → (b || true) ≡ true
or_true true = refl
or_true false = refl

module _ {W : Type 0} ⦃d : Real W⦄ where
  abbrev pub add_point : Metrics ℕ W → Point W → Metrics ℕ W
  add_point acc p = with_both add_int d.plus acc p.values

  abbrev pub add_points : Metrics ℕ W → List (Point W) → Metrics ℕ W
  add_points acc [] = acc
  add_points acc (p ∷ ps) = add_points (add_point acc p) ps

  add_points-append :
      (acc : Metrics ℕ W) (ps : List (Point W)) (p : Point W)
      → add_points acc (ps ++ p ∷ []) ≡ add_point (add_points acc ps) p
  add_points-append acc [] p = refl
  add_points-append acc (q ∷ ps) p = add_points-append (add_point acc q) ps p

  -- The sums of the loop, field by field.
  add_points-fields :
      (acc : Metrics ℕ W) (ps : List (Point W))
      → add_points acc ps
        ≡ with_each
            (λ f. sum_from (f acc) (column f ps))
            (λ f. double_sum (f acc) (column f ps))
            fields
  add_points-fields acc [] = refl
  add_points-fields acc (p ∷ ps) = add_points-fields (add_point acc p) ps

  -- The locals inside a window.
  abbrev pub within_window :
      (tail first : Point W) (seen : List (Point W)) → List (Aggregate W) → Progress W
  within_window tail first seen out = record {
    init_time = first.key;
    num_nodes = suc (length seen);
    compute_rttc = false;
    aggregated = record {
      key = d.minus tail.key first.key;
      generation_time = first.key;
      slopes = as_doubles first.values;
      averages = add_points (all_fields 0 d.nought) (first ∷ seen);
    };
    aggregated_datapoints = out;
  }

  complete-summary :
      (tail first closing : Point W) (seen : List (Point W)) (out : List (Aggregate W))
      → complete (suc (length seen)) closing (within_window tail first seen out).aggregated
        ≡ summary tail (record { first = first; inside = seen; closing = closing })
  complete-summary tail first closing seen out =
      let points = first ∷ seen in
      let n = suc (length seen) in
      let w : Window W = record { first = first; inside = seen; closing = closing } in
      let ints : (λ (f : Metrics ℕ W → ℕ). sum_from 0 (column f points) / n)
          ≡ (λ f. mean_int f points) =
        fun_ext λ f. ap (λ (k : ℕ). k / n) (sum_from_zero (column f points)) in
      ap
        (λ (m : Metrics ℕ W).
          complete n closing
            (record (within_window tail first seen out).aggregated { averages = m }))
        (add_points-fields (all_fields 0 d.nought) points)
      ∙ ap
          (λ (mean : (Metrics ℕ W → ℕ) → ℕ). record (summary tail w) {
            averages = with_each mean (λ f. mean_double f points) fields;
          })
          ints

  add_in_window :
      (tail first p : Point W) (seen : List (Point W)) (out : List (Aggregate W))
      → accumulate p (compute_rttc_at tail p (within_window tail first seen out))
        ≡ within_window tail first (seen ++ p ∷ []) out
  unfolding accumulate compute_rttc_at
  add_in_window tail first p seen out =
      rw (add_points-append (all_fields 0 d.nought) (first ∷ seen) p) (
        ap
          (λ (n : ℕ). record (within_window tail first seen out) {
            num_nodes = n;
            aggregated = record (within_window tail first seen out).aggregated {
              averages = add_point (add_points (all_fields 0 d.nought) (first ∷ seen)) p;
            };
          })
          (omega (arith, length-append seen (p ∷ []))))

  close_window :
      (tail first p : Point W) (seen : List (Point W)) (out : List (Aggregate W)) (is_tail : Bool)
      → closes is_tail p first.key ≡ true
      → aggregate_point tail is_tail p (within_window tail first seen out)
        ≡ ok (
            within_window tail p []
              (out ++ summary tail (record { first = first; inside = seen; closing = p }) ∷ []))
  unfolding aggregate_point emit compute_rttc_at accumulate
  close_window tail first p seen out is_tail h =
      let counted : (suc (length seen) == 0) ≡ false = ground arith in
      rw (h, counted, complete-summary tail first p seen out) refl

  stay_in_window :
      (tail first p : Point W) (seen : List (Point W)) (out : List (Aggregate W)) (is_tail : Bool)
      → closes is_tail p first.key ≡ false
      → aggregate_point tail is_tail p (within_window tail first seen out)
        ≡ ok (within_window tail first (seen ++ p ∷ []) out)
  unfolding aggregate_point
  stay_in_window tail first p seen out is_tail h =
      rw h (ap ok (add_in_window tail first p seen out))

  AreNear-append :
      (first : Point W) (seen : List (Point W)) (p : Point W)
      → AreNear first seen
      → is_far first p ≡ false
      → AreNear first (seen ++ p ∷ [])
  AreNear-append first [] p h e = (e, tt)
  AreNear-append first (q ∷ seen) p h e = (h.0, AreNear-append first seen p h.1 e)

  -- What the loop does with the rest of a run.
  pub record Cut (tail first : Point W) (seen rest : List (Point W)) (out : List (Aggregate W))
      : Type 0 where
    pub windows : List (Window W)
    pub cut : Windows (first ∷ (seen ++ rest)) windows
    pub end : Progress W
    pub loop : aggregate_points tail rest (within_window tail first seen out) ≡ ok end
    pub nodes : end.aggregated_datapoints ≡ out ++ map (summary tail) windows

  pub rest_of_run :
      (tail first : Point W) (seen : List (Point W)) (p : Point W) (next : List (Point W))
      (out : List (Aggregate W))
      → AreNear first seen
      → Cut tail first seen (p ∷ next) out
  unfolding aggregate_points
  rest_of_run tail first seen p [] out near =
      let w : Window W = record { first = first; inside = seen; closing = p } in
      let last : closes true p first.key ≡ true = or_true (is_far first p) in
      record {
        windows = w ∷ [];
        cut = window w [] refl near (inr refl) (at_tail p);
        end = within_window tail p [] (out ++ summary tail w ∷ []);
        loop = rw (close_window tail first p seen out true last) refl;
        nodes = refl;
      }
  rest_of_run tail first seen p (q ∷ next) out near = elim (Bool-cases (is_far first p)) [
    | inl far ↦
        let w : Window W = record { first = first; inside = seen; closing = p } in
        let closing : closes false p first.key ≡ true = rw far refl in
        let later = rest_of_run tail p [] q next (out ++ summary tail w ∷ []) tt in
        record {
          windows = w ∷ later.windows;
          cut = window w (q ∷ next) refl near (inl far) later.cut;
          end = later.end;
          loop = rw (close_window tail first p seen out false closing) later.loop;
          nodes =
              later.nodes
              ∙ append_assoc out (summary tail w ∷ []) (map (summary tail) later.windows);
        }
    | inr close ↦
        let staying : closes false p first.key ≡ false = rw close refl in
        let later =
          rest_of_run tail first (seen ++ p ∷ []) q next out
            (AreNear-append first seen p near close) in
        record {
          windows = later.windows;
          cut = rw (sym (append_assoc seen (p ∷ []) (q ∷ next))) later.cut;
          end = later.end;
          loop = rw (stay_in_window tail first p seen out false staying) later.loop;
          nodes = later.nodes;
        }
  ]
