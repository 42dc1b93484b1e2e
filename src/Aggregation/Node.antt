-- ===== src/Aggregation/Node.antt =====
-- model_build/list.h: `struct node`, the fields of a datapoint.
use a2pm.Common.{ℕ}

-- The fields that a datapoint, its slopes and its averages have: eight of one type and six of another.
pub record Metrics {ℓ κ} (A : Type ℓ) (B : Type κ) : Type (ℓ ⊔ κ) where
  pub n_th : A
  pub mem_used : A
  pub mem_free : A
  pub mem_shared : A
  pub mem_buffers : A
  pub mem_cached : A
  pub swap_used : A
  pub swap_free : A
  pub cpu_user : B
  pub cpu_nice : B
  pub cpu_system : B
  pub cpu_iowait : B
  pub cpu_steal : B
  pub cpu_idle : B

-- The fields of a node that are read from the database.
pub record Point (W : Type 0) : Type 0 where
  pub key : W
  pub values : Metrics ℕ W

-- A whole node, as it is written to the output.
pub record Aggregate (W : Type 0) : Type 0 where
  pub key : W
  pub generation_time : W
  pub slopes : Metrics W W
  pub averages : Metrics ℕ W

-- One line for each field, as in the code.
abbrev pub with_each : {A B C D : Type 0} → (A → C) → (B → D) → Metrics A B → Metrics C D
with_each f g m = record {
  n_th = f m.n_th;
  mem_used = f m.mem_used;
  mem_free = f m.mem_free;
  mem_shared = f m.mem_shared;
  mem_buffers = f m.mem_buffers;
  mem_cached = f m.mem_cached;
  swap_used = f m.swap_used;
  swap_free = f m.swap_free;
  cpu_user = g m.cpu_user;
  cpu_nice = g m.cpu_nice;
  cpu_system = g m.cpu_system;
  cpu_iowait = g m.cpu_iowait;
  cpu_steal = g m.cpu_steal;
  cpu_idle = g m.cpu_idle;
}

abbrev pub with_both :
    {A B A' B' C D : Type 0}
    → (A → A' → C)
    → (B → B' → D)
    → Metrics A B
    → Metrics A' B'
    → Metrics C D
with_both f g m m' = record {
  n_th = f m.n_th m'.n_th;
  mem_used = f m.mem_used m'.mem_used;
  mem_free = f m.mem_free m'.mem_free;
  mem_shared = f m.mem_shared m'.mem_shared;
  mem_buffers = f m.mem_buffers m'.mem_buffers;
  mem_cached = f m.mem_cached m'.mem_cached;
  swap_used = f m.swap_used m'.swap_used;
  swap_free = f m.swap_free m'.swap_free;
  cpu_user = g m.cpu_user m'.cpu_user;
  cpu_nice = g m.cpu_nice m'.cpu_nice;
  cpu_system = g m.cpu_system m'.cpu_system;
  cpu_iowait = g m.cpu_iowait m'.cpu_iowait;
  cpu_steal = g m.cpu_steal m'.cpu_steal;
  cpu_idle = g m.cpu_idle m'.cpu_idle;
}

abbrev pub all_fields : {A B : Type 0} → A → B → Metrics A B
all_fields a b = record {
  n_th = a;
  mem_used = a;
  mem_free = a;
  mem_shared = a;
  mem_buffers = a;
  mem_cached = a;
  swap_used = a;
  swap_free = a;
  cpu_user = b;
  cpu_nice = b;
  cpu_system = b;
  cpu_iowait = b;
  cpu_steal = b;
  cpu_idle = b;
}
