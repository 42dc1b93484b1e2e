-- ===== src/Aggregation/RoundTrip.antt =====
-- The datapoints that client.c writes, read back by `read_db_file`.
pub mod Lines
use mathlib.Core.List.{append_assoc, append-nil}
use a2pm.Common.{
  ℕ, ◌+◌, ◌≤◌, ◌<◌, ◌≡◌, refl, ap, ◌∙◌, arith, some, List, [], ◌∷◌, ◌++◌, map, ltb, lt→ltb, ltb→lt,
  Bool-cases, inl, inr, length,
}
use a2pm.Common.Text.{same_text}
use a2pm.Common.Formats.{Formats, AreFormats, HasNo, HasNo-append, colon, blank, newline}
use a2pm.Aggregation.{Real, Point, with_each, all_fields}
use a2pm.Aggregation.Database.{
  parsed, crashed, Reading, max_runs, strtok, until_colon, marker, all_runs, new_run,
  fill_datapoint, fill_memory, fill_swap, fill_cpu, insert_point, read_token, read_line, read_lines,
  read_db_file,
}
use a2pm.Client.Features.{Features, datapoint_line, memory_line, swap_line, cpu_line}
use a2pm.Aggregation.RoundTrip.Lines.{
  in_run, read_datapoint_line, read_memory_line, read_swap_line, read_cpu_line, read_marker,
}

module _ {W : Type 0} ⦃f : Formats W⦄ where
  -- What is left of a datapoint of the client: no totals, and six digits of a double.
  abbrev pub point_of : Features W → Point W
  point_of x = record { key = f.rounded x.time; values = with_each (λ n. n) f.rounded x.values }

  -- The lines of a datapoint in the database, of a run and of all runs.
  abbrev pub point_lines : Features W → List (List ℕ) → List (List ℕ)
  point_lines x more =
      datapoint_line x ∷ memory_line x ∷ swap_line x ∷ (cpu_line x ++ newline ∷ []) ∷ more

  abbrev pub run_lines : List (Features W) → List (List ℕ) → List (List ℕ)
  run_lines [] more = more
  run_lines (x ∷ xs) more = point_lines x (run_lines xs more)

  abbrev pub database : List (List (Features W)) → List (List ℕ)
  database [] = []
  database (run ∷ runs) = marker ∷ run_lines run (database runs)

module _ {W : Type 0} ⦃d : Real W⦄ ⦃f : Formats W⦄ (laws : AreFormats W) where
  read_point_lines :
      (x : Features W) (more : List (List ℕ)) (done : List (List (Point W))) (run : List (Point W))
      (n : ℕ) (p : Point W)
      → read_lines (point_lines x more) (in_run done run n p)
        ≡ read_lines more (
            in_run done
              (run ++ point_of x ∷ [])
              n
              (record { key = d.nought; values = all_fields 0 d.nought }))
  unfolding read_lines
  read_point_lines x more done run n p =
      let p1 : Point W = record {
        key = f.rounded x.time;
        values = record p.values { n_th = x.values.n_th };
      } in
      let p2 : Point W = record p1 {
        values = record p1.values {
          mem_used = x.values.mem_used;
          mem_free = x.values.mem_free;
          mem_shared = x.values.mem_shared;
          mem_buffers = x.values.mem_buffers;
          mem_cached = x.values.mem_cached;
        };
      } in
      let p3 : Point W = record p2 {
        values = record p2.values {
          swap_used = x.values.swap_used;
          swap_free = x.values.swap_free;
        };
      } in
      rw (read_datapoint_line laws x (in_run done run n p)) (
        rw (read_memory_line laws x (in_run done run n p1)) (
          rw (read_swap_line laws x (in_run done run n p2))
            (rw (read_cpu_line laws x done run n p3) refl)))

  read_run_lines :
      (xs : List (Features W)) (more : List (List ℕ)) (done : List (List (Point W)))
      (run : List (Point W)) (n : ℕ) (p : Point W)
      → (p' : Point W) × (read_lines (run_lines xs more) (in_run done run n p)
          ≡ read_lines more (in_run done (run ++ map point_of xs) n p'))
  read_run_lines [] more done run n p = (p, rw (append-nil run) refl)
  read_run_lines (x ∷ xs) more done run n p =
      let zeroed : Point W = record { key = d.nought; values = all_fields 0 d.nought } in
      let (p', rest) = read_run_lines xs more done (run ++ point_of x ∷ []) n zeroed in
      (
        p',
        read_point_lines x (run_lines xs more) done run n p
            ∙ rest
            ∙ ap (λ r. read_lines more (in_run done r n p'))
                (append_assoc run (point_of x ∷ []) (map point_of xs)),
      )

  read_database :
      (runs : List (List (Features W))) (done : List (List (Point W))) (run : List (Point W))
      (n : ℕ) (p : Point W)
      → n + length runs ≤ max_runs
      → (s : Reading W) × (read_lines (database runs) (in_run done run n p) ≡ parsed s)
        × (all_runs s ≡ done ++ run ∷ map (map point_of) runs)
  unfolding read_lines
  read_database [] done run n p h = (in_run done run n p, refl, refl)
  read_database (next ∷ runs) done run n p h =
      let (p', filled) = read_run_lines next (database runs) (done ++ run ∷ []) [] (n + 1) p in
      let (s, rest, all) =
        read_database runs (done ++ run ∷ []) (map point_of next) (n + 1) p' (omega arith) in
      (
        s,
        rw (read_marker laws done run n p (omega arith)) (filled ∙ rest),
        all ∙ append_assoc done (run ∷ []) (map point_of next ∷ map (map point_of) runs),
      )

  -- The database of at most 1024 runs, each a marker and the four lines that the client writes for
  -- each datapoint, is read back as these runs: every datapoint with all its fields, in order, except
  -- for the totals and for what `%f` does not print of a `double`. What the memory held at the start
  -- does not matter.
  pub read_db_file-database :
      (runs : List (List (Features W))) (memory : Point W)
      → length runs ≤ max_runs
      → read_db_file memory (database runs) ≡ parsed (map (map point_of) runs)
  unfolding read_db_file read_lines read_line same_text new_run
  read_db_file-database [] memory h = refl
  read_db_file-database (run ∷ runs) memory h =
      let (p', filled) = read_run_lines run (database runs) [] [] 1 memory in
      let (s, rest, all) = read_database runs [] (map point_of run) 1 p' (omega arith) in
      rw (filled ∙ rest) (ap parsed all)

  read_overflow :
      (runs : List (List (Features W))) (done : List (List (Point W))) (run : List (Point W))
      (n : ℕ) (p : Point W)
      → n ≤ max_runs
      → max_runs < n + length runs
      → read_lines (database runs) (in_run done run n p) ≡ crashed
  unfolding read_lines
  read_overflow [] done run n p fits h = absurd (omega arith)
  read_overflow (next ∷ runs) done run n p fits h = elim (Bool-cases (ltb n max_runs)) [
    | inl below ↦
        let lt : n < max_runs = ltb→lt n max_runs below in
        let (p', filled) = read_run_lines next (database runs) (done ++ run ∷ []) [] (n + 1) p in
        rw (read_marker laws done run n p lt) (
          filled
          ∙ read_overflow runs (done ++ run ∷ []) (map point_of next) (n + 1) p' (omega arith)
              (omega arith))
    | inr full ↦ unfold read_line new_run same_text in rw full refl
  ]

  -- One run more than `input_datapoints` has places for, and the program writes behind the array: the
  -- model stops there as `crashed`, while the code tests nothing and goes on over what lies behind.
  pub read_db_file-overflow :
      (runs : List (List (Features W))) (memory : Point W)
      → max_runs < length runs
      → read_db_file memory (database runs) ≡ crashed
  unfolding read_db_file read_lines read_line same_text new_run
  read_db_file-overflow [] memory h = absurd (omega arith)
  read_db_file-overflow (run ∷ runs) memory h =
      let (p', filled) = read_run_lines run (database runs) [] [] 1 memory in
      let over : read_lines (database runs) (in_run [] (map point_of run) 1 p') ≡ crashed =
        read_overflow runs [] (map point_of run) 1 p' (omega arith) (omega arith) in
      rw (filled ∙ over) refl
