-- ===== src/Aggregation/Runs.antt =====
-- `aggregate` over all runs: its output, and the runs at which it ends early.
use mathlib.Core.List.{append_assoc, append-nil}
use a2pm.Common.{
  ◌≤◌, ◌<◌, ◌≡◌, refl, sym, ap, ◌∙◌, arith, true, false, List, [], ◌∷◌, ◌++◌, map, length,
}
use a2pm.Aggregation.{
  Real, Point, Aggregate, Fault, null_pointer, division_by_zero, Fallible, failed, ok, ◌>>=◌,
  Progress, emit, compute_rttc_at, accumulate, aggregate_point, aggregate_points, last_of,
  aggregate_run, aggregate_runs, aggregate, zeroed,
}
use a2pm.Aggregation.Windows.{Window, summary, is_far, Windows}
use a2pm.Aggregation.Windows.Loop.{within_window, Cut, rest_of_run, or_true}

-- A datapoint is not far from itself: the difference is 0, or not a number.
pub record IsReal (W : Type 0) ⦃d : Real W⦄ : Type 0 where
  pub self_near : (x : W) → d.gt (d.fabs (d.minus x x)) d.aggregation_step ≡ false

module _ {W : Type 0} ⦃d : Real W⦄ where
  -- The nodes of all runs: those of the windows of the first, then those of the others.
  pub data Summaries : List (List (Point W)) → List (Aggregate W) → Type 0 where
    all_done : Summaries [] []
    first_run :
        (head : Point W) (next : List (Point W)) (ws : List (Window W))
        {runs : List (List (Point W))} {later nodes : List (Aggregate W)}
        → Windows (head ∷ next) ws
        → Summaries runs later
        → nodes ≡ map (summary (last_of head next)) ws ++ later
        → Summaries ((head ∷ next) ∷ runs) nodes

  abbrev pub AreLong : List (List (Point W)) → Type 0
  AreLong [] = Unit {0}
  AreLong (run ∷ runs) = (2 ≤ length run) × AreLong runs

  abbrev start : Point W → List (Aggregate W) → Progress W
  start head out = record {
    init_time = head.key;
    num_nodes = 0;
    compute_rttc = true;
    aggregated = zeroed;
    aggregated_datapoints = out;
  }

  first_point :
      (tail head : Point W) (out : List (Aggregate W))
      → is_far head head ≡ false
      → aggregate_point tail false head (start head out) ≡ ok (within_window tail head [] out)
  unfolding aggregate_point compute_rttc_at accumulate
  first_point tail head out near = rw near refl

  aggregate_run-Cut :
      IsReal W
      → (head q : Point W) (next : List (Point W)) (out : List (Aggregate W))
      → (c : Cut (last_of q next) head [] (q ∷ next) out) × (aggregate_run (head ∷ q ∷ next) out
          ≡ ok c.end.aggregated_datapoints)
  unfolding aggregate_run aggregate_points
  aggregate_run-Cut laws head q next out =
      let c = rest_of_run (last_of q next) head [] q next out tt in
      (c, rw (first_point (last_of q next) head out (laws.self_near head.key), c.loop) refl)

  aggregate_runs-Summaries :
      IsReal W
      → (runs : List (List (Point W))) (out : List (Aggregate W)) → AreLong runs
      → (nodes : List (Aggregate W)) × Summaries runs nodes
        × (aggregate_runs runs out ≡ ok (out ++ nodes))
  unfolding aggregate_runs
  aggregate_runs-Summaries laws [] out h = ([], all_done, ap ok (sym (append-nil out)))
  aggregate_runs-Summaries laws ([] ∷ runs) out h = absurd (omega arith)
  aggregate_runs-Summaries laws ((p ∷ []) ∷ runs) out h = absurd (omega arith)
  aggregate_runs-Summaries laws ((head ∷ q ∷ next) ∷ runs) out h =
      let (c, ran) = aggregate_run-Cut laws head q next out in
      let mine = map (summary (last_of q next)) c.windows in
      let (later, summaries, rest) = aggregate_runs-Summaries laws runs (out ++ mine) h.1 in
      (
        mine ++ later,
        first_run head (q ∷ next) c.windows c.cut summaries refl,
        rw (ran, c.nodes) (rest ∙ ap ok (append_assoc out mine later)),
      )

  -- If every run has two datapoints, and the difference of a double from itself is not above the step,
  -- `aggregate` ends well, and its output is, run by run and window
  -- by window, the summary of each window: the time from its start to the end of the run, the mean
  -- time between its datapoints, the slope of each field from its first datapoint to the one that
  -- closes it, and the mean of each field.
  pub aggregate-Summaries :
      IsReal W
      → (runs : List (List (Point W))) → AreLong runs
      → (nodes : List (Aggregate W)) × Summaries runs nodes × (aggregate runs ≡ ok nodes)
  unfolding aggregate
  aggregate-Summaries laws runs h = aggregate_runs-Summaries laws runs [] h

  >>=-assoc :
      (r : Fallible (List (Aggregate W)))
      (h f g : List (Aggregate W) → Fallible (List (Aggregate W)))
      → ((out : List (Aggregate W)) → h out ≡ (f out >>= g))
      → (r >>= h) ≡ ((r >>= f) >>= g)
  >>=-assoc (failed e) h f g same = refl
  >>=-assoc (ok out) h f g same = same out

  aggregate_runs-append :
      (xs ys : List (List (Point W))) (out : List (Aggregate W))
      → aggregate_runs (xs ++ ys) out ≡ (aggregate_runs xs out >>= aggregate_runs ys)
  unfolding aggregate_runs
  aggregate_runs-append [] ys out = refl
  aggregate_runs-append (run ∷ xs) ys out =
      >>=-assoc (aggregate_run run out) (aggregate_runs (xs ++ ys)) (aggregate_runs xs)
        (aggregate_runs ys) (aggregate_runs-append xs ys)

  abbrev pub fault_of : List (Point W) → Fault
  fault_of [] = null_pointer
  fault_of (p ∷ ps) = division_by_zero

  short_run :
      (run : List (Point W)) (out : List (Aggregate W))
      → length run < 2
      → aggregate_run run out ≡ failed (fault_of run)
  unfolding aggregate_run aggregate_points aggregate_point emit
  short_run [] out h = refl
  short_run (p ∷ []) out h = rw (or_true (is_far p p)) refl
  short_run (p ∷ q ∷ ps) out h = absurd (omega arith)

  -- A run of fewer than two datapoints ends the program, whatever comes behind it, if all before it
  -- are longer and the difference of a double from itself is not above the step: without a datapoint a null pointer is read, with one an `int` is divided by 0.
  pub aggregate_fault :
      IsReal W
      → (runs : List (List (Point W))) (short : List (Point W)) (more : List (List (Point W)))
      → AreLong runs
      → length short < 2
      → aggregate (runs ++ short ∷ more) ≡ failed (fault_of short)
  unfolding aggregate aggregate_runs
  aggregate_fault laws runs short more h lt =
      let (nodes, summaries, e) = aggregate_runs-Summaries laws runs [] h in
      rw (aggregate_runs-append runs (short ∷ more) [], e, short_run short nodes lt) refl
