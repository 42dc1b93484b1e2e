-- ===== src/Aggregation/RoundTrip/Lines.antt =====
-- `read_db_file` on each of the lines that client.c writes.
use a2pm.Common.{ℕ, ◌+◌, ◌<◌, ◌≡◌, refl, some, List, [], ◌∷◌, ◌++◌, lt→ltb}
use a2pm.Common.Text.{same_text}
use a2pm.Common.Formats.{Formats, AreFormats, HasNo, HasNo-append, colon, blank, newline}
use a2pm.Aggregation.{Real, Point, all_fields}
use a2pm.Aggregation.Database.{
  parsed, Reading, max_runs, strtok, until_colon, marker, new_run, fill_datapoint, fill_memory,
  fill_swap, fill_cpu, insert_point, read_token, read_line,
}
use a2pm.Client.Features.{Features, datapoint_line, memory_line, swap_line, cpu_line}

no_colon : (s : List ℕ) → HasNo colon s → until_colon s ≡ (s, [])
no_colon [] h = refl
no_colon (c ∷ s) h = rw (h.0, no_colon s h.1) refl

module _ {W : Type 0} where
  abbrev pub in_run : List (List (Point W)) → List (Point W) → ℕ → Point W → Reading W
  in_run done run n p = record {
    input_datapoints = done;
    curr_list = some run;
    curr_run = n;
    a_new_point = p;
  }

module _ {W : Type 0} ⦃d : Real W⦄ ⦃f : Formats W⦄ (laws : AreFormats W) where
  pub read_datapoint_line :
      (x : Features W) (s : Reading W)
      → read_line (datapoint_line x) s
        ≡ parsed (record s {
          a_new_point = record {
            key = f.rounded x.time;
            values = record s.a_new_point.values { n_th = x.values.n_th };
          };
        })
  unfolding read_line read_token strtok same_text fill_datapoint
  read_datapoint_line x s =
      let text = f.sprintf_double x.time ++ blank ∷ f.count_line x.values.n_th in
      let plain : HasNo colon text =
        HasNo-append colon (f.sprintf_double x.time) (blank ∷ f.count_line x.values.n_th)
          (laws.double-HasNo x.time) (refl, laws.count-HasNo x.values.n_th) in
      rw (no_colon text plain, laws.read_point x.time x.values.n_th) refl

  pub read_memory_line :
      (x : Features W) (s : Reading W)
      → read_line (memory_line x) s
        ≡ parsed (record s {
          a_new_point = record s.a_new_point {
            values = record s.a_new_point.values {
              mem_used = x.values.mem_used;
              mem_free = x.values.mem_free;
              mem_shared = x.values.mem_shared;
              mem_buffers = x.values.mem_buffers;
              mem_cached = x.values.mem_cached;
            };
          };
        })
  unfolding read_line read_token strtok same_text fill_memory
  read_memory_line x s =
      let numbers =
        x.mem_total ∷ x.values.mem_used ∷ x.values.mem_free ∷ x.values.mem_shared
        ∷ x.values.mem_buffers ∷ x.values.mem_cached ∷ [] in
      let text = f.sprintf_ints numbers ++ newline ∷ [] in
      let plain : HasNo colon text =
        HasNo-append colon (f.sprintf_ints numbers) (newline ∷ []) (laws.ints-HasNo numbers)
          (refl, tt) in
      rw (no_colon text plain, laws.read_ints numbers) refl

  pub read_swap_line :
      (x : Features W) (s : Reading W)
      → read_line (swap_line x) s
        ≡ parsed (record s {
          a_new_point = record s.a_new_point {
            values = record s.a_new_point.values {
              swap_used = x.values.swap_used;
              swap_free = x.values.swap_free;
            };
          };
        })
  unfolding read_line read_token strtok same_text fill_swap
  read_swap_line x s =
      let numbers = x.swap_total ∷ x.values.swap_used ∷ x.values.swap_free ∷ [] in
      let text = f.sprintf_ints numbers ++ newline ∷ [] in
      let plain : HasNo colon text =
        HasNo-append colon (f.sprintf_ints numbers) (newline ∷ []) (laws.ints-HasNo numbers)
          (refl, tt) in
      rw (no_colon text plain, laws.read_ints numbers) refl

  -- The last line puts the datapoint into the run.
  pub read_cpu_line :
      (x : Features W) (done : List (List (Point W))) (run : List (Point W)) (n : ℕ) (p : Point W)
      → read_line (cpu_line x ++ newline ∷ []) (in_run done run n p)
        ≡ parsed (
            in_run done
              (run
                ++ record p {
                  values = record p.values {
                    cpu_user = f.rounded x.values.cpu_user;
                    cpu_nice = f.rounded x.values.cpu_nice;
                    cpu_system = f.rounded x.values.cpu_system;
                    cpu_iowait = f.rounded x.values.cpu_iowait;
                    cpu_steal = f.rounded x.values.cpu_steal;
                    cpu_idle = f.rounded x.values.cpu_idle;
                  };
                }
                  ∷ [])
              n
              (record { key = d.nought; values = all_fields 0 d.nought }))
  unfolding read_line read_token strtok same_text fill_cpu insert_point
  read_cpu_line x done run n p =
      let numbers =
        x.values.cpu_user ∷ x.values.cpu_nice ∷ x.values.cpu_system ∷ x.values.cpu_iowait
        ∷ x.values.cpu_steal ∷ x.values.cpu_idle ∷ [] in
      let text = f.sprintf_doubles numbers ++ newline ∷ [] in
      let plain : HasNo colon text =
        HasNo-append colon (f.sprintf_doubles numbers) (newline ∷ []) (laws.doubles-HasNo numbers)
          (refl, tt) in
      rw (no_colon text plain, laws.read_doubles numbers) refl

  pub read_marker :
      (done : List (List (Point W))) (run : List (Point W)) (n : ℕ) (p : Point W)
      → n < max_runs
      → read_line marker (in_run done run n p) ≡ parsed (in_run (done ++ run ∷ []) [] (n + 1) p)
  unfolding read_line same_text new_run
  read_marker done run n p h = rw (lt→ltb n max_runs h) refl
