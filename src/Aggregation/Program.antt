-- ===== src/Aggregation/Program.antt =====
-- model_build/aggregate.c: `write_aggregated_file` and `main`.
use Prim.Native.String.{String}
use a2pm.Common.{
  ℕ, ◌≤◌, ◌≡◌, refl, ap, ◌∙◌, Bool, true, Option, none, some, List, [], ◌∷◌, map, if◌then◌else◌,
  length,
}
use a2pm.Common.Formats.{Formats, AreFormats}
use a2pm.Client.Features.{Features}
use a2pm.Aggregation.{Real, Point, Aggregate, Fallible, failed, ok, aggregate}
use a2pm.Aggregation.Columns.{first_of, int_at, node_of, converted, nodes_of}
use a2pm.Aggregation.Database.{Parsed, exited, aborted, crashed, parsed, max_runs, read_db_file}
use a2pm.Aggregation.RoundTrip.{point_of, database, read_db_file-database}
use a2pm.Aggregation.Runs.{IsReal, AreLong, Summaries, aggregate-Summaries}

abbrev pub header : List String
header =
    "RTTC" ∷ "GenTime" ∷ "n_th_slope" ∷ "mem_used_slope" ∷ "mem_free_slope" ∷ "mem_shared_slope"
    ∷ "mem_buffers_slope" ∷ "mem_cached_slope" ∷ "swap_used_slope" ∷ "swap_free_slope"
    ∷ "cpu_user_slope" ∷ "cpu_nice_slope" ∷ "cpu_system_slope" ∷ "cpu_iowait_slope"
    ∷ "cpu_steal_slope" ∷ "cpu_idle_slope" ∷ "n_th" ∷ "mem_used" ∷ "mem_free" ∷ "mem_shared"
    ∷ "mem_buffers" ∷ "mem_cached" ∷ "swap_used" ∷ "swap_free" ∷ "cpu_user" ∷ "cpu_nice"
    ∷ "cpu_system" ∷ "cpu_iowait" ∷ "cpu_steal" ∷ "cpu_idle" ∷ []

module _ {W : Type 0} ⦃f : Formats W⦄ where
  -- A value as `%f` prints it.
  abbrev double : W → List ℕ
  double x = f.sprintf_doubles (x ∷ [])

  -- A line of the output, without the commas between its values.
  unfoldable pub row : Aggregate W → List (List ℕ)
  row a =
      double a.key
      ∷ double a.generation_time
      ∷ double a.slopes.n_th
      ∷ double a.slopes.mem_used
      ∷ double a.slopes.mem_free
      ∷ double a.slopes.mem_shared
      ∷ double a.slopes.mem_buffers
      ∷ double a.slopes.mem_cached
      ∷ double a.slopes.swap_used
      ∷ double a.slopes.swap_free
      ∷ double a.slopes.cpu_user
      ∷ double a.slopes.cpu_nice
      ∷ double a.slopes.cpu_system
      ∷ double a.slopes.cpu_iowait
      ∷ double a.slopes.cpu_steal
      ∷ double a.slopes.cpu_idle
      ∷ f.sprintf_ints (a.averages.n_th ∷ [])
      ∷ f.sprintf_ints (a.averages.mem_used ∷ [])
      ∷ f.sprintf_ints (a.averages.mem_free ∷ [])
      ∷ f.sprintf_ints (a.averages.mem_shared ∷ [])
      ∷ f.sprintf_ints (a.averages.mem_buffers ∷ [])
      ∷ f.sprintf_ints (a.averages.mem_cached ∷ [])
      ∷ f.sprintf_ints (a.averages.swap_used ∷ [])
      ∷ f.sprintf_ints (a.averages.swap_free ∷ [])
      ∷ double a.averages.cpu_user
      ∷ double a.averages.cpu_nice
      ∷ double a.averages.cpu_system
      ∷ double a.averages.cpu_iowait
      ∷ double a.averages.cpu_steal
      ∷ double a.averages.cpu_idle
      ∷ []

  unfoldable pub write_aggregated_file : List (Aggregate W) → List String × List (List (List ℕ))
  unfolding row
  write_aggregated_file nodes = (header, map row nodes)

  node_of-row :
      AreFormats W
      → (z : W) (a : Aggregate W) → node_of z header (row a) ≡ converted f.rounded (λ n. n) a
  unfolding node_of row
  node_of-row laws z a =
      ap (λ g. converted g (λ n. int_at f (some (f.sprintf_ints (n ∷ [])))) a)
        (λ i x. ap (first_of z) (laws.read_doubles (x ∷ [])) i)
      ∙ ap (λ k. converted f.rounded k a) (λ i n. ap (first_of 0) (laws.read_ints (n ∷ [])) i)

  -- A reader of the printed values that goes by the names in the first line of the output gets back
  -- every node, each field in its place and the nodes in their order, up to what `%f` does not print
  -- of a `double`. `sscanf` must read what `sprintf` prints.
  pub write_aggregated_file-nodes :
      AreFormats W
      → (z : W) (nodes : List (Aggregate W))
      → nodes_of z (write_aggregated_file nodes) ≡ map (converted f.rounded (λ n. n)) nodes
  unfolding write_aggregated_file
  write_aggregated_file-nodes laws z [] = refl
  write_aggregated_file-nodes laws z (a ∷ nodes) =
      rw (node_of-row laws z a, write_aggregated_file-nodes laws z nodes) refl

-- How the program ends: `exit`, a signal, or 0 with the output in the named file.
pub data Ended : Type 0 where
  exit_failure killed : Ended
  written : (name : String) → List String × List (List (List ℕ)) → Ended

-- The lines of a file that opens, and what the memory of `a_new_point` holds.
pub record Files (W : Type 0) : Type 0 where
  pub in_file : Option (List (List ℕ))
  pub out_opens : Bool
  pub memory : Point W

module _ {W : Type 0} ⦃d : Real W⦄ ⦃f : Formats W⦄ where
  output_of : String → Fallible (List (Aggregate W)) → Ended
  unfolding write_aggregated_file
  output_of name (failed e) = killed
  output_of name (ok nodes) = written name (write_aggregated_file nodes)

  after_reading : String → Parsed (List (List (Point W))) → Ended
  unfolding output_of
  after_reading name exited = exit_failure
  after_reading name aborted = killed
  after_reading name crashed = killed
  after_reading name (parsed runs) = output_of name (aggregate runs)

  with_files : (out_name : String) → Files W → Ended
  unfolding after_reading
  with_files name io = elim io.in_file [
    | none ↦ exit_failure
    | some lines ↦
        if io.out_opens then after_reading name (read_db_file io.memory lines) else exit_failure
  ]

  -- The arguments behind the name of the program; only with two of them is the second used.
  unfoldable pub main : List String → Files W → Ended
  unfolding with_files
  main [] io = exit_failure
  main (db ∷ []) io = with_files "aggregated.csv" io
  main (db ∷ out ∷ []) io = with_files out io
  main (db ∷ out ∷ more) io = with_files "aggregated.csv" io

  -- The whole program on the database of at most 1024 runs of at least two datapoints each: it ends
  -- well, and the nodes in its output are the summaries of the windows of these runs. A difference of
  -- a double from itself must not be above the step, and `sscanf` must read what `sprintf` prints.
  pub main-Summaries :
      IsReal W
      → AreFormats W
      → (runs : List (List (Features W))) (db out : String) (memory : Point W)
      → length runs ≤ max_runs
      → AreLong (map (map point_of) runs)
      → (nodes : List (Aggregate W)) × Summaries (map (map point_of) runs) nodes
        × (main
              (db ∷ out ∷ [])
              (record { in_file = some (database runs); out_opens = true; memory = memory })
            ≡ written out (write_aggregated_file nodes))
  unfolding main with_files after_reading output_of
  main-Summaries real laws runs db out memory h long =
      let (nodes, summaries, e) = aggregate-Summaries real (map (map point_of) runs) long in
      (nodes, summaries, rw (read_db_file-database laws runs memory h, e) refl)
