-- ===== src/Aggregation.antt =====
-- model_build/aggregate.c and the `struct node` of model_build/list.h: the datapoints of each run of
-- a VM are averaged over windows of `AGGREGATION_STEP` seconds. A run is the list that
-- `insertRear` builds, so that the node at the tail is the one behind which nothing comes.
mod Node
pub mod Windows
pub mod Runs
pub mod Database
pub mod RoundTrip
pub mod Columns
pub mod Program
pub use Node.*
use a2pm.Common.{
  ℕ, zero, suc, ◌+◌, ◌*◌, ◌/◌, ◌%◌, ◌^◌, Bool, true, false, ◌||◌, Option, none, some, List, [], ◌∷◌,
  ◌++◌, map, ◌==◌, if◌then◌else◌,
}

-- All that the code does with a `double`. An `int` is its bit pattern.
pub record Real {ℓ} (W : Type ℓ) : Type ℓ where
  pub nought : W
  pub aggregation_step : W
  pub of_int : ℕ → W
  pub of_unsigned : ℕ → W
  pub plus : W → W → W
  pub minus : W → W → W
  pub over : W → W → W
  pub negate : W → W
  pub fabs : W → W
  pub gt : W → W → Bool

-- How the program ends early: the head of an empty list is read, or an `int` is divided by 0.
pub data Fault : Type 0 where
  null_pointer division_by_zero : Fault

pub data Fallible {ℓ} (A : Type ℓ) : Type ℓ where
  failed : Fault → Fallible A
  ok : A → Fallible A

infixl 5 ◌>>=◌
abbrev pub ◌>>=◌ {ℓ κ} : {A : Type ℓ} {B : Type κ} → Fallible A → (A → Fallible B) → Fallible B
failed e >>= f = failed e
ok a >>= f = f a

-- `+=` on an `int`, as the machine adds.
abbrev pub add_int : ℕ → ℕ → ℕ
add_int a b = (a + b) % 2 ^ 32

-- The locals of `aggregate` in a run, and the list of the aggregated nodes.
pub record Progress (W : Type 0) : Type 0 where
  pub init_time : W
  pub num_nodes : ℕ
  pub compute_rttc : Bool
  pub aggregated : Aggregate W
  pub aggregated_datapoints : List (Aggregate W)

module _ {W : Type 0} ⦃d : Real W⦄ where
  -- `bzero`.
  abbrev pub zeroed : Aggregate W
  zeroed = record {
    key = d.nought;
    generation_time = d.nought;
    slopes = all_fields d.nought d.nought;
    averages = all_fields 0 d.nought;
  }

  -- The values of the datapoint as doubles.
  abbrev pub as_doubles : Metrics ℕ W → Metrics W W
  as_doubles = with_each d.of_int (λ x. x)

  -- The averages and the slopes of a window that ends at `curr`; an `int` is divided as an unsigned
  -- number.
  abbrev pub complete : ℕ → Point W → Aggregate W → Aggregate W
  complete num_nodes curr a = record {
    key = a.key;
    generation_time = d.over (d.minus curr.key a.generation_time) (d.of_unsigned num_nodes);
    slopes =
        with_both (λ slope x. d.over (d.minus slope x) (d.negate (d.of_unsigned num_nodes)))
          (λ slope x. d.over (d.minus slope x) (d.negate (d.of_unsigned num_nodes))) a.slopes
          (as_doubles curr.values);
    averages =
        with_each (λ sum. sum / num_nodes) (λ sum. d.over sum (d.of_unsigned num_nodes)) a.averages;
  }

  -- A window is closed.
  unfoldable pub emit : Point W → Progress W → Fallible (Progress W)
  emit curr s =
      if s.num_nodes == 0
      then failed division_by_zero
      else ok (record {
        init_time = curr.key;
        num_nodes = 0;
        compute_rttc = true;
        aggregated = zeroed;
        aggregated_datapoints =
            s.aggregated_datapoints ++ (complete s.num_nodes curr s.aggregated ∷ []);
      })

  -- The time to the crash, and the start of the slopes.
  unfoldable pub compute_rttc_at : (tail : Point W) → Point W → Progress W → Progress W
  compute_rttc_at tail curr s =
      if s.compute_rttc
      then record s {
        aggregated = record s.aggregated {
          key = d.minus tail.key curr.key;
          generation_time = curr.key;
          slopes = as_doubles curr.values;
        };
        compute_rttc = false;
      }
      else s

  -- The datapoint is added to the sums. A window has fewer datapoints than an `unsigned int` counts.
  unfoldable pub accumulate : Point W → Progress W → Progress W
  accumulate curr s = record s {
    aggregated = record s.aggregated {
      averages = with_both add_int d.plus s.aggregated.averages curr.values;
    };
    num_nodes = s.num_nodes + 1;
  }

  -- The test that closes a window before the datapoint.
  abbrev pub closes : (is_tail : Bool) → Point W → (init_time : W) → Bool
  closes is_tail curr init_time =
      d.gt (d.fabs (d.minus curr.key init_time)) d.aggregation_step || is_tail

  -- The body of the loop.
  unfoldable pub aggregate_point :
      (tail : Point W) → (is_tail : Bool) → Point W → Progress W → Fallible (Progress W)
  unfolding emit compute_rttc_at accumulate
  aggregate_point tail is_tail curr s =
      (if closes is_tail curr s.init_time then emit curr s else ok s) >>= λ s'.
      ok (accumulate curr (compute_rttc_at tail curr s'))

  abbrev pub is_last : List (Point W) → Bool
  is_last [] = true
  is_last (p ∷ ps) = false

  unfoldable pub aggregate_points :
      (tail : Point W) → List (Point W) → Progress W → Fallible (Progress W)
  unfolding aggregate_point
  aggregate_points tail [] s = ok s
  aggregate_points tail (curr ∷ next) s =
      aggregate_point tail (is_last next) curr s >>= aggregate_points tail next

  abbrev pub last_of : Point W → List (Point W) → Point W
  last_of p [] = p
  last_of p (q ∷ qs) = last_of q qs

  -- One run; the nodes are put behind those of the runs before.
  unfoldable pub aggregate_run : List (Point W) → List (Aggregate W) → Fallible (List (Aggregate W))
  unfolding aggregate_points
  aggregate_run [] out = failed null_pointer
  aggregate_run (head ∷ next) out =
      aggregate_points (last_of head next) (head ∷ next) (record {
        init_time = head.key;
        num_nodes = 0;
        compute_rttc = true;
        aggregated = zeroed;
        aggregated_datapoints = out;
      })
      >>= λ s. ok s.aggregated_datapoints

  -- The runs in order.
  unfoldable pub aggregate_runs :
      List (List (Point W)) → List (Aggregate W) → Fallible (List (Aggregate W))
  unfolding aggregate_run
  aggregate_runs [] out = ok out
  aggregate_runs (run ∷ runs) out = aggregate_run run out >>= aggregate_runs runs

  unfoldable pub aggregate : List (List (Point W)) → Fallible (List (Aggregate W))
  unfolding aggregate_runs
  aggregate runs = aggregate_runs runs []
