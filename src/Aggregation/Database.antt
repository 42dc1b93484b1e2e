-- ===== src/Aggregation/Database.antt =====
-- model_build/aggregate.c: `read_db_file`, which reads the runs from the database, line by line as
-- `fgets` gives them.
use a2pm.Common.{
  ℕ, zero, suc, ◌+◌, Option, none, some, List, [], ◌∷◌, ◌++◌, ltb, ◌==◌, if◌then◌else◌,
}
use a2pm.Common.Text.{codes, same_text}
use a2pm.Common.Formats.{Formats, colon}
use a2pm.Aggregation.{Real, Point, all_fields}

abbrev pub max_runs : ℕ
max_runs = 1024

-- How the program ends before the file does: an unknown token, the assertion that there is a run, or
-- an access through a null pointer or behind `input_datapoints`.
pub data Parsed {ℓ} (A : Type ℓ) : Type ℓ where
  exited aborted crashed : Parsed A
  parsed : A → Parsed A

infixl 5 ◌>>=◌
abbrev pub ◌>>=◌ {ℓ κ} : {A : Type ℓ} {B : Type κ} → Parsed A → (A → Parsed B) → Parsed B
exited >>= f = exited
aborted >>= f = aborted
crashed >>= f = crashed
parsed a >>= f = f a

-- The runs before the current one, the current one, their number, and `a_new_point`.
pub record Reading (W : Type 0) : Type 0 where
  pub input_datapoints : List (List (Point W))
  pub curr_list : Option (List (Point W))
  pub curr_run : ℕ
  pub a_new_point : Point W

-- `strtok` with the delimiter `:`, the token and what is behind it.
abbrev pub until_colon : List ℕ → List ℕ × List ℕ
until_colon [] = ([], [])
until_colon (c ∷ s) =
    let rest = until_colon s in if c == colon then ([], s) else (c ∷ rest.0, rest.1)

unfoldable pub strtok : List ℕ → Option (List ℕ × List ℕ)
strtok [] = none
strtok (c ∷ s) =
    let rest = strtok s in
    if c == colon then rest else some (c ∷ (until_colon s).0, (until_colon s).1)

-- The conversion at a place, or what the field held before.
abbrev pub get_or : {A : Type 0} → A → List A → ℕ → A
get_or old [] i = old
get_or old (x ∷ xs) zero = x
get_or old (x ∷ xs) (suc i) = get_or old xs i

abbrev pub marker : List ℕ
marker = codes "------------NEW ACTIVE MACHINE:----------" ++ 10 ∷ []

module _ {W : Type 0} where
  -- The list that is being filled is put behind those before it.
  abbrev pub all_runs : Reading W → List (List (Point W))
  all_runs s = elim s.curr_list [
    | none ↦ s.input_datapoints
    | some run ↦ s.input_datapoints ++ run ∷ []
  ]

  -- Behind the array, `crashed` stands for the write outside it.
  unfoldable pub new_run : Reading W → Parsed (Reading W)
  new_run s =
      if ltb s.curr_run max_runs
      then parsed (record s {
        input_datapoints = all_runs s;
        curr_list = some [];
        curr_run = s.curr_run + 1;
      })
      else crashed

  -- The text behind the token; `sscanf` of a null pointer crashes.
  abbrev pub with_text : List ℕ → (List ℕ → Point W) → Reading W → Parsed (Reading W)
  with_text rest fill s = elim (strtok rest) [
    | none ↦ crashed
    | some (text, _) ↦ parsed (record s { a_new_point = fill text })
  ]

  module _ ⦃d : Real W⦄ ⦃f : Formats W⦄ where
    unfoldable pub fill_datapoint : Point W → List ℕ → Point W
    fill_datapoint p text =
        let (key, n_th) = f.sscanf_point text in
        record {
          key = elim key [ none ↦ p.key | some x ↦ x ];
          values = record p.values { n_th = elim n_th [ none ↦ p.values.n_th | some n ↦ n ] };
        }

    -- The first number, the total, is written where the second goes.
    unfoldable pub fill_memory : Point W → List ℕ → Point W
    fill_memory p text =
        let vs = f.sscanf_ints 6 text in
        let m = p.values in
        record p {
          values = record m {
            mem_used = get_or (get_or m.mem_used vs 0) vs 1;
            mem_free = get_or m.mem_free vs 2;
            mem_shared = get_or m.mem_shared vs 3;
            mem_buffers = get_or m.mem_buffers vs 4;
            mem_cached = get_or m.mem_cached vs 5;
          };
        }

    unfoldable pub fill_swap : Point W → List ℕ → Point W
    fill_swap p text =
        let vs = f.sscanf_ints 3 text in
        let m = p.values in
        record p {
          values = record m {
            swap_used = get_or (get_or m.swap_used vs 0) vs 1;
            swap_free = get_or m.swap_free vs 2;
          };
        }

    unfoldable pub fill_cpu : Point W → List ℕ → Point W
    fill_cpu p text =
        let vs = f.sscanf_doubles 6 text in
        let m = p.values in
        record p {
          values = record m {
            cpu_user = get_or m.cpu_user vs 0;
            cpu_nice = get_or m.cpu_nice vs 1;
            cpu_system = get_or m.cpu_system vs 2;
            cpu_iowait = get_or m.cpu_iowait vs 3;
            cpu_steal = get_or m.cpu_steal vs 4;
            cpu_idle = get_or m.cpu_idle vs 5;
          };
        }

    -- `insertRear` of a copy of the datapoint, which is then zeroed.
    unfoldable pub insert_point : Reading W → Parsed (Reading W)
    insert_point s = elim s.curr_list [
      | none ↦ aborted
      | some run ↦ parsed (record s {
        curr_list = some (run ++ s.a_new_point ∷ []);
        a_new_point = record { key = d.nought; values = all_fields 0 d.nought };
      })
    ]

    unfoldable pub read_token : (token rest : List ℕ) → Reading W → Parsed (Reading W)
    unfolding fill_datapoint fill_memory fill_swap fill_cpu insert_point
    read_token token rest s =
        if same_text token (codes "Datapoint")
        then with_text rest (fill_datapoint s.a_new_point) s
        else if same_text token (codes "Memory")
        then with_text rest (fill_memory s.a_new_point) s
        else if same_text token (codes "Swap")
        then with_text rest (fill_swap s.a_new_point) s
        else if same_text token (codes "CPU")
        then with_text rest (fill_cpu s.a_new_point) s >>= insert_point
        else exited

    unfoldable pub read_line : List ℕ → Reading W → Parsed (Reading W)
    unfolding new_run read_token strtok
    read_line line s =
        if same_text line marker
        then new_run s
        else (elim (strtok line) [ none ↦ crashed | some (token, rest) ↦ read_token token rest s ])

    unfoldable pub read_lines : List (List ℕ) → Reading W → Parsed (Reading W)
    unfolding read_line
    read_lines [] s = parsed s
    read_lines (line ∷ lines) s = read_line line s >>= read_lines lines

    -- `memory` is what `a_new_point` holds at the start.
    unfoldable pub read_db_file : Point W → List (List ℕ) → Parsed (List (List (Point W)))
    unfolding read_lines
    read_db_file memory lines =
        read_lines lines
          (record { input_datapoints = []; curr_list = none; curr_run = 0; a_new_point = memory })
        >>= λ s. parsed (all_runs s)
