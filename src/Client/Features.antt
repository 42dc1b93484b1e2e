-- ===== src/Client/Features.antt =====
-- controller/client.c: `get_features`, which writes a datapoint from what the system says.
use a2pm.Common.{
  ℕ, ◌+◌, ◌-◌, ◌%◌, ◌^◌, Bool, true, false, ◌&&◌, Option, none, some, List, [], ◌∷◌, ◌++◌, ltb,
  ◌==◌, if◌then◌else◌, length,
}
use a2pm.Common.Text.{codes}
use a2pm.Common.Formats.{Formats, colon, blank, newline}
use a2pm.Aggregation.{Metrics}
use a2pm.Aggregation.Database.{get_or}

-- All that the code does with a `float`.
pub record Float (W : Type 0) : Type 0 where
  pub of_ulong : ℕ → W
  pub minus : W → W → W
  pub hundred_times : W → W
  pub over : W → W → W

-- A line of /proc/stat, in its order.
pub record Stat : Type 0 where
  pub cpu_user : ℕ
  pub cpu_nice : ℕ
  pub cpu_system : ℕ
  pub cpu_idle : ℕ
  pub cpu_iowait : ℕ
  pub dummy_a : ℕ
  pub dummy_b : ℕ
  pub cpu_steal : ℕ
  pub dummy_c : ℕ
  pub dummy_d : ℕ

-- A datapoint of the client.
pub record Features (W : Type 0) : Type 0 where
  pub time : W
  pub mem_total : ℕ
  pub swap_total : ℕ
  pub values : Metrics ℕ W

-- What the system says: the number of threads if `popen` works, the time since the start, the bytes
-- of /proc/meminfo if it opens, and the two lines of /proc/stat if they are read. `scan_memory` and
-- `scan_swap` are the two `sscanf` calls, `garbage` what the locals held.
pub record System (W : Type 0) : Type 0 where
  pub threads : Option ℕ
  pub time : W
  pub meminfo : Option (List ℕ)
  pub stat_before : Option Stat
  pub stat_after : Option Stat
  pub scan_memory : List ℕ → List ℕ
  pub scan_swap : List ℕ → List ℕ
  pub garbage : ℕ

pub data Collected {ℓ} (A : Type ℓ) : Type ℓ where
  aborted exited crashed : Collected A
  collected : A → Collected A

infixl 5 ◌>>=◌
abbrev pub ◌>>=◌ {ℓ κ} : {A : Type ℓ} {B : Type κ} → Collected A → (A → Collected B) → Collected B
aborted >>= f = aborted
exited >>= f = exited
crashed >>= f = crashed
collected a >>= f = f a

abbrev pub sub_int : ℕ → ℕ → ℕ
sub_int a b = (a + 2 ^ 32 - b % 2 ^ 32) % 2 ^ 32

abbrev sub_ulong : ℕ → ℕ → ℕ
sub_ulong a b = (a + 2 ^ 64 - b % 2 ^ 64) % 2 ^ 64

abbrev pub bufsize : ℕ
bufsize = 4096

-- The bytes up to the one that a `char` cannot tell from the end of the file.
abbrev pub up_to_eof : List ℕ → List ℕ
up_to_eof [] = []
up_to_eof (c ∷ s) = let rest = up_to_eof s in if c == 255 then [] else c ∷ rest

-- The file in `aux_buffer`, with the 0 behind it; the loop has no bounds check.
unfoldable pub read_meminfo : List ℕ → Collected (List ℕ)
read_meminfo file =
    if ltb (length (up_to_eof file)) bufsize then collected (up_to_eof file) else crashed

abbrev starts_with : List ℕ → List ℕ → Bool
starts_with [] s = true
starts_with (c ∷ t) [] = false
starts_with (c ∷ t) (d ∷ s) = d == c && starts_with t s

-- The text from the first place at which `t` stands.
unfoldable pub strstr : List ℕ → List ℕ → Option (List ℕ)
strstr [] t = none
strstr (c ∷ s) t = let rest = strstr s t in if starts_with t (c ∷ s) then some (c ∷ s) else rest

abbrev pub from {ℓ} : {A : Type ℓ} → Collected A → Option A → Collected A
from failure none = failure
from failure (some a) = collected a

module _ {W : Type 0} ⦃w : Float W⦄ where
  abbrev total : Stat → W
  total s = w.of_ulong (
      (s.cpu_user + s.cpu_nice + s.cpu_system + s.cpu_idle + s.cpu_iowait + s.dummy_a + s.dummy_b
        + s.cpu_steal + s.dummy_c + s.dummy_d)
      % 2 ^ 64)

  -- The share of the time between the two lines.
  abbrev pub share : (Stat → ℕ) → Stat → Stat → W
  share field s1 s2 =
      w.over (w.hundred_times (w.of_ulong (sub_ulong (field s2) (field s1))))
        (w.minus (total s2) (total s1))

  -- The datapoint that is written.
  unfoldable pub features_of :
      (threads : ℕ) (time : W) (memory swap : List ℕ) (garbage : ℕ) → Stat → Stat → Features W
  features_of threads time memory swap garbage s1 s2 =
      let mem_total = get_or garbage memory 0 in
      let mem_free = get_or garbage memory 1 in
      let swap_total = get_or garbage swap 0 in
      let swap_free = get_or garbage swap 1 in
      record {
        time = time;
        mem_total = mem_total;
        swap_total = swap_total;
        values = record {
          n_th = threads;
          mem_used = sub_int mem_total mem_free;
          mem_free = mem_free;
          mem_shared = 0;
          mem_buffers = get_or garbage memory 2;
          mem_cached = get_or garbage memory 3;
          swap_used = sub_int swap_total swap_free;
          swap_free = swap_free;
          cpu_user = share (λ s. s.cpu_user) s1 s2;
          cpu_nice = share (λ s. s.cpu_nice) s1 s2;
          cpu_system = share (λ s. s.cpu_system) s1 s2;
          cpu_iowait = share (λ s. s.cpu_iowait) s1 s2;
          cpu_steal = share (λ s. s.cpu_steal) s1 s2;
          cpu_idle = share (λ s. s.cpu_idle) s1 s2;
        };
      }

  -- The calls in their order.
  unfoldable pub collect : System W → Collected (Features W)
  unfolding read_meminfo strstr features_of
  collect sys = do
    threads ← from aborted sys.threads
    file ← from exited sys.meminfo
    text ← read_meminfo file
    swap ← from crashed (strstr text (codes "SwapTotal:"))
    s1 ← from exited sys.stat_before
    s2 ← from exited sys.stat_after
    collected
        (features_of threads sys.time (sys.scan_memory text) (sys.scan_swap swap) sys.garbage s1 s2)

module _ {W : Type 0} ⦃f : Formats W⦄ where
  abbrev pub datapoint_line : Features W → List ℕ
  datapoint_line x =
      codes "Datapoint"
      ++ colon ∷ (blank ∷ (f.sprintf_double x.time ++ blank ∷ f.count_line x.values.n_th))

  abbrev pub memory_line : Features W → List ℕ
  memory_line x =
      codes "Memory"
      ++ colon
        ∷ (blank
            ∷ (f.sprintf_ints (
                  x.mem_total ∷ x.values.mem_used ∷ x.values.mem_free ∷ x.values.mem_shared
                  ∷ x.values.mem_buffers ∷ x.values.mem_cached ∷ [])
                ++ newline ∷ []))

  abbrev pub swap_line : Features W → List ℕ
  swap_line x =
      codes "Swap"
      ++ colon
        ∷ (blank
            ∷ (f.sprintf_ints (x.swap_total ∷ x.values.swap_used ∷ x.values.swap_free ∷ [])
                ++ newline ∷ []))

  -- The last line has no end of line.
  abbrev pub cpu_line : Features W → List ℕ
  cpu_line x =
      codes "CPU"
      ++ colon
        ∷ (blank
            ∷ f.sprintf_doubles (
                x.values.cpu_user ∷ x.values.cpu_nice ∷ x.values.cpu_system ∷ x.values.cpu_iowait
                ∷ x.values.cpu_steal ∷ x.values.cpu_idle ∷ []))

  -- The text that is sent.
  unfoldable pub describe : Features W → List ℕ
  describe x = datapoint_line x ++ (memory_line x ++ (swap_line x ++ cpu_line x))

module _ {W : Type 0} ⦃w : Float W⦄ ⦃f : Formats W⦄ where
  unfoldable pub get_features : System W → Collected (List ℕ)
  unfolding collect describe
  get_features sys = collect sys >>= λ x. collected (describe x)
