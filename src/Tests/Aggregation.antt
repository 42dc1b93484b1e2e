-- ===== src/Tests/Aggregation.antt =====
-- Runs of model_build/aggregate.c on whole numbers in place of doubles.
use a2pm.Common.{
  ℕ, zero, suc, ◌+◌, ◌-◌, ◌/◌, ◌≡◌, refl, ap, arith, true, Option, none, some, List, [], ◌∷◌, ◌++◌,
  map, ltb, length, replicate,
}
use a2pm.Common.Formats.{Formats, AreFormats, HasNo, colon, newline}
use a2pm.Aggregation.{Real, Point, Aggregate, all_fields, division_by_zero, failed, ok, aggregate}
use a2pm.Aggregation.Runs.{IsReal, Summaries, aggregate-Summaries, aggregate_fault}
use a2pm.Aggregation.Database.{parsed, crashed, read_db_file}
use a2pm.Aggregation.RoundTrip.{point_of, database, read_db_file-database, read_db_file-overflow}
use a2pm.Aggregation.Columns.{nodes_of}
use a2pm.Aggregation.Program.{
  written, write_aggregated_file, write_aggregated_file-nodes, main, main-Summaries,
}
use a2pm.Client.Features.{Features}

-- Whole numbers; the distance in place of the difference.
instance abbrev whole_real : Real ℕ
whole_real = record {
  nought = 0;
  aggregation_step = 15;
  of_int = λ n. n;
  of_unsigned = λ n. n;
  plus = λ a b. a + b;
  minus = λ a b. (a - b) + (b - a);
  over = λ a b. a / b;
  negate = λ a. a;
  fabs = λ a. a;
  gt = λ a b. ltb b a;
}

whole-IsReal : IsReal ℕ
whole-IsReal = record { self_near = λ x. ground arith }

-- A number is printed as one character behind the colon.
abbrev decode : ℕ → List ℕ → List ℕ
decode zero s = []
decode (suc n) [] = []
decode (suc n) (c ∷ s) = (c - 59) ∷ decode n s

abbrev behind_blank : List ℕ → List ℕ
behind_blank [] = []
behind_blank (c ∷ s) = s

abbrev read_two : List ℕ → Option ℕ × Option ℕ
read_two (a ∷ x ∷ b ∷ n ∷ []) = (some (x - 59), some (n - 59))
read_two s = (none, none)

abbrev encode : List ℕ → List ℕ
encode [] = []
encode (v ∷ vs) = (v + 59) ∷ encode vs

instance abbrev whole_formats : Formats ℕ
whole_formats = record {
  sscanf_point = read_two;
  sscanf_ints = λ n s. decode n (behind_blank s);
  sscanf_doubles = λ n s. decode n (behind_blank s);
  sprintf_double = λ x. (x + 59) ∷ [];
  sprintf_ints = encode;
  sprintf_doubles = encode;
  count_line = λ n. (n + 59) ∷ [];
  rounded = λ x. x;
}

decode-encode : (vs more : List ℕ) → decode (length vs) (encode vs ++ more) ≡ vs
decode-encode [] more = refl
decode-encode (v ∷ vs) more =
    let back : v + 59 - 59 ≡ v = omega arith in rw back (ap (λ r. v ∷ r) (decode-encode vs more))

map_same : (vs : List ℕ) → map (λ x. x) vs ≡ vs
map_same [] = refl
map_same (v ∷ vs) = ap (λ r. v ∷ r) (map_same vs)

encode-HasNo : (vs : List ℕ) → HasNo colon (encode vs)
encode-HasNo [] = tt
encode-HasNo (v ∷ vs) = (ground arith, encode-HasNo vs)

whole-AreFormats : AreFormats ℕ
whole-AreFormats = record {
  read_point = λ x n. ground arith;
  read_ints = λ vs. decode-encode vs (newline ∷ []);
  read_doubles = λ vs. rw (map_same vs) (decode-encode vs (newline ∷ []));
  double-HasNo = λ x. (ground arith, tt);
  count-HasNo = λ n. (ground arith, tt);
  ints-HasNo = encode-HasNo;
  doubles-HasNo = encode-HasNo;
}

abbrev point_at : ℕ → ℕ → Point ℕ
point_at time value = record { key = time; values = all_fields value value }

-- Windows from 0 to 20 and from 20 to the tail at 25.
abbrev short_run : List (Point ℕ)
short_run = point_at 0 10 ∷ point_at 10 20 ∷ point_at 20 40 ∷ point_at 25 60 ∷ []

abbrev node_at : ℕ → ℕ → ℕ → ℕ → Aggregate ℕ
node_at rttc gen_time slope mean = record {
  key = rttc;
  generation_time = gen_time;
  slopes = all_fields slope slope;
  averages = all_fields mean mean;
}

two_windows : aggregate (short_run ∷ []) ≡ ok (node_at 25 10 15 15 ∷ node_at 5 5 20 40 ∷ [])
unfolding aggregate
two_windows = refl

aggregate-Summaries_example :
    (nodes : List (Aggregate ℕ)) × Summaries (short_run ∷ []) nodes
    × (aggregate (short_run ∷ []) ≡ ok nodes)
aggregate-Summaries_example = aggregate-Summaries whole-IsReal (short_run ∷ []) (omega arith)

aggregate_fault_example : aggregate (short_run ∷ (point_at 3 4 ∷ []) ∷ []) ≡ failed division_by_zero
aggregate_fault_example =
    aggregate_fault whole-IsReal (short_run ∷ []) (point_at 3 4 ∷ []) [] (omega arith) (omega arith)

abbrev features_at : ℕ → Features ℕ
features_at time = record {
  time = time;
  mem_total = 100;
  swap_total = 200;
  values = all_fields 7 8;
}

abbrev two_runs : List (List (Features ℕ))
two_runs =
    (features_at 0 ∷ features_at 9 ∷ [])
    ∷ (features_at 1 ∷ features_at 2 ∷ features_at 30 ∷ [])
    ∷ []

read_db_file-database_example :
    read_db_file (point_at 5 5) (database two_runs) ≡ parsed (map (map point_of) two_runs)
read_db_file-database_example =
    read_db_file-database whole-AreFormats two_runs (point_at 5 5) (omega arith)

many_runs : ℕ → List (List (Features ℕ))
many_runs n = replicate n []

length-many_runs : (n : ℕ) → length (many_runs n) ≡ n
unfolding many_runs
length-many_runs zero = refl
length-many_runs (suc n) = ap suc (length-many_runs n)

read_db_file-overflow_example : read_db_file (point_at 5 5) (database (many_runs 1025)) ≡ crashed
read_db_file-overflow_example =
    read_db_file-overflow whole-AreFormats (many_runs 1025) (point_at 5 5)
      (omega (arith, length-many_runs 1025))

write_aggregated_file-nodes_example :
    nodes_of 0 (write_aggregated_file (node_at 25 10 15 15 ∷ [])) ≡ node_at 25 10 15 15 ∷ []
write_aggregated_file-nodes_example =
    write_aggregated_file-nodes whole-AreFormats 0 (node_at 25 10 15 15 ∷ [])

main-Summaries_example :
    (nodes : List (Aggregate ℕ)) × Summaries (map (map point_of) two_runs) nodes
    × (main
          ("db.txt" ∷ "out.csv" ∷ [])
          (record { in_file = some (database two_runs); out_opens = true; memory = point_at 5 5 })
        ≡ written "out.csv" (write_aggregated_file nodes))
main-Summaries_example =
    main-Summaries whole-IsReal whole-AreFormats two_runs "db.txt" "out.csv" (point_at 5 5)
      (omega arith) (omega arith)
