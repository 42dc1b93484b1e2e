-- ===== src/Aggregation/Columns.antt =====
-- Readers of the output of model_build/aggregate.c that go by the names of its columns.
use Prim.Native.String.{String}
use text.Mathlib.Text.{◌==◌ as str_eq}
use a2pm.Common.{ℕ, ◌++◌, Option, none, some, List, [], ◌∷◌, map, if◌then◌else◌}
use a2pm.Common.Formats.{Formats, blank, newline}
use a2pm.Aggregation.{Aggregate}

-- A reader of the file that goes by the names of the columns.
abbrev pub cell : List String → List (List ℕ) → String → Option (List ℕ)
cell (n ∷ names) (c ∷ cells) name =
    let rest = cell names cells name in if str_eq n name then some c else rest
cell names cells name = none

abbrev pub first_of : {A : Type 0} → A → List A → A
first_of none_there [] = none_there
first_of none_there (x ∷ xs) = x

abbrev pub int_at : {W : Type 0} → Formats W → Option (List ℕ) → ℕ
int_at f none = 0
int_at f (some text) = first_of 0 (f.sscanf_ints 1 (blank ∷ (text ++ newline ∷ [])))

module _ {W : Type 0} ⦃f : Formats W⦄ where
  -- A value read from the text between two commas.
  abbrev pub double_at : W → Option (List ℕ) → W
  double_at none_there none = none_there
  double_at none_there (some text) =
      first_of none_there (f.sscanf_doubles 1 (blank ∷ (text ++ newline ∷ [])))

  unfoldable pub node_of : W → List String → List (List ℕ) → Aggregate W
  node_of z names cells =
      let double_of = λ (name : String). double_at z (cell names cells name) in
      let int_of = λ (name : String). int_at f (cell names cells name) in
      record {
        key = double_of "RTTC";
        generation_time = double_of "GenTime";
        slopes = record {
          n_th = double_of "n_th_slope";
          mem_used = double_of "mem_used_slope";
          mem_free = double_of "mem_free_slope";
          mem_shared = double_of "mem_shared_slope";
          mem_buffers = double_of "mem_buffers_slope";
          mem_cached = double_of "mem_cached_slope";
          swap_used = double_of "swap_used_slope";
          swap_free = double_of "swap_free_slope";
          cpu_user = double_of "cpu_user_slope";
          cpu_nice = double_of "cpu_nice_slope";
          cpu_system = double_of "cpu_system_slope";
          cpu_iowait = double_of "cpu_iowait_slope";
          cpu_steal = double_of "cpu_steal_slope";
          cpu_idle = double_of "cpu_idle_slope";
        };
        averages = record {
          n_th = int_of "n_th";
          mem_used = int_of "mem_used";
          mem_free = int_of "mem_free";
          mem_shared = int_of "mem_shared";
          mem_buffers = int_of "mem_buffers";
          mem_cached = int_of "mem_cached";
          swap_used = int_of "swap_used";
          swap_free = int_of "swap_free";
          cpu_user = double_of "cpu_user";
          cpu_nice = double_of "cpu_nice";
          cpu_system = double_of "cpu_system";
          cpu_iowait = double_of "cpu_iowait";
          cpu_steal = double_of "cpu_steal";
          cpu_idle = double_of "cpu_idle";
        };
      }

  -- A node with its doubles and its ints converted.
  abbrev pub converted : (W → W) → (ℕ → ℕ) → Aggregate W → Aggregate W
  converted g k a = record {
    key = g a.key;
    generation_time = g a.generation_time;
    slopes = record {
      n_th = g a.slopes.n_th;
      mem_used = g a.slopes.mem_used;
      mem_free = g a.slopes.mem_free;
      mem_shared = g a.slopes.mem_shared;
      mem_buffers = g a.slopes.mem_buffers;
      mem_cached = g a.slopes.mem_cached;
      swap_used = g a.slopes.swap_used;
      swap_free = g a.slopes.swap_free;
      cpu_user = g a.slopes.cpu_user;
      cpu_nice = g a.slopes.cpu_nice;
      cpu_system = g a.slopes.cpu_system;
      cpu_iowait = g a.slopes.cpu_iowait;
      cpu_steal = g a.slopes.cpu_steal;
      cpu_idle = g a.slopes.cpu_idle;
    };
    averages = record {
      n_th = k a.averages.n_th;
      mem_used = k a.averages.mem_used;
      mem_free = k a.averages.mem_free;
      mem_shared = k a.averages.mem_shared;
      mem_buffers = k a.averages.mem_buffers;
      mem_cached = k a.averages.mem_cached;
      swap_used = k a.averages.swap_used;
      swap_free = k a.averages.swap_free;
      cpu_user = g a.averages.cpu_user;
      cpu_nice = g a.averages.cpu_nice;
      cpu_system = g a.averages.cpu_system;
      cpu_iowait = g a.averages.cpu_iowait;
      cpu_steal = g a.averages.cpu_steal;
      cpu_idle = g a.averages.cpu_idle;
    };
  }

  abbrev pub nodes_of : W → List String × List (List (List ℕ)) → List (Aggregate W)
  nodes_of z (names, rows) = map (node_of z names) rows
