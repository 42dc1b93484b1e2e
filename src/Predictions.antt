-- ===== src/Predictions.antt =====
-- controller/ml_model.c: the linear models of the time to fail and of the time to crash, over
-- `system_features` of controller/system_features.h.
pub mod Memory
use a2pm.Common.{ℕ, ◌+◌, ◌-◌, ◌%◌, ◌^◌, Bool}
use a2pm.Client.Features.{sub_int}
use a2pm.Controller.Communication.{Models}

-- All that the code does with a `float` or a `double`, each a `W`: `minus` and `over` are those of
-- `float`, `plus` and `times` those of `double`, and `to_float` rounds. `decimal n k` is the literal
-- n / 10 ^ k; an `int` is its bit pattern.
pub record Float (W : Type 0) : Type 0 where
  pub decimal : ℕ → ℕ → W
  pub of_int : ℕ → W
  pub to_float : W → W
  pub negate : W → W
  pub plus : W → W → W
  pub minus : W → W → W
  pub times : W → W → W
  pub over : W → W → W
  pub lt : W → W → Bool

pub record SystemFeatures (W : Type 0) : Type 0 where
  pub time : W
  pub n_th : ℕ
  pub mem_total : ℕ
  pub mem_used : ℕ
  pub mem_free : ℕ
  pub mem_shared : ℕ
  pub mem_buffers : ℕ
  pub mem_cached : ℕ
  pub swap_total : ℕ
  pub swap_used : ℕ
  pub swap_free : ℕ
  pub cpu_user : W
  pub cpu_nice : W
  pub cpu_system : W
  pub cpu_iowait : W
  pub cpu_steal : W
  pub cpu_idle : W

pub record SystemFeaturesWithSlopes (W : Type 0) : Type 0 where
  pub gen_time : W
  pub n_th_slope : W
  pub mem_used_slope : W
  pub mem_free_slope : W
  pub swap_used_slope : W
  pub swap_free_slope : W
  pub cpu_user_slope : W
  pub cpu_system_slope : W
  pub cpu_idle_slope : W
  pub n_th : ℕ
  pub mem_total : ℕ
  pub mem_used : ℕ
  pub mem_free : ℕ
  pub mem_shared : ℕ
  pub mem_buffers : ℕ
  pub mem_cached : ℕ
  pub swap_total : ℕ
  pub swap_used : ℕ
  pub swap_free : ℕ
  pub cpu_user : W
  pub cpu_nice : W
  pub cpu_system : W
  pub cpu_iowait : W
  pub cpu_steal : W
  pub cpu_idle : W

-- In seconds.
abbrev pub ttc_threshold : ℕ
ttc_threshold = 300

module _ {W : Type 0} ⦃w : Float W⦄ where
  infixl 65 ◌+ᶠ◌
  infixl 70 ◌*ᶠ◌
  abbrev ◌+ᶠ◌ : W → W → W
  x +ᶠ y = w.plus x y

  abbrev ◌*ᶠ◌ : W → W → W
  x *ᶠ y = w.times x y

  unfoldable pub calculate_linear_regression : SystemFeaturesWithSlopes W → W
  calculate_linear_regression f = w.to_float (
      w.decimal 5929 4 *ᶠ f.gen_time
      +ᶠ w.negate (w.decimal 2645 4) *ᶠ f.n_th_slope
      +ᶠ w.negate (w.decimal 2 4) *ᶠ f.mem_used_slope
      +ᶠ w.decimal 2 4 *ᶠ f.mem_free_slope
      +ᶠ w.decimal 4242 4 *ᶠ f.cpu_user_slope
      +ᶠ w.negate (w.decimal 9884 4) *ᶠ f.cpu_idle_slope
      +ᶠ w.negate (w.decimal 459 3) *ᶠ w.of_int f.n_th
      +ᶠ w.decimal 2 4 *ᶠ w.of_int f.mem_free
      +ᶠ w.negate (w.decimal 13 4) *ᶠ w.of_int f.mem_buffers
      +ᶠ w.decimal 1 4 *ᶠ w.of_int f.mem_cached
      +ᶠ w.negate (w.decimal 4 4) *ᶠ w.of_int f.swap_used
      +ᶠ w.decimal 11191 4 *ᶠ f.cpu_user
      +ᶠ w.decimal 9517 4 *ᶠ f.cpu_system
      +ᶠ w.decimal 8971 4 *ᶠ f.cpu_idle
      +ᶠ w.decimal 2428923 4)

  -- The fields that are assigned; the others keep what the memory of `f` holds, `f.mem_free` and
  -- `f.mem_cached` among them.
  abbrev pub with_slopes :
      (last current first : SystemFeatures W)
      → SystemFeaturesWithSlopes W
      → SystemFeaturesWithSlopes W
  with_slopes last current first f = record f {
    gen_time = w.minus current.time last.time;
    n_th_slope = w.to_float (w.of_int (sub_int current.n_th last.n_th));
    mem_used_slope = w.to_float (w.of_int (sub_int current.mem_used last.mem_used));
    mem_free_slope = w.to_float (w.of_int (sub_int current.mem_free last.mem_free));
    swap_used_slope = w.to_float (w.of_int (sub_int current.swap_used last.swap_used));
    swap_free_slope = w.to_float (w.of_int (sub_int current.swap_free last.swap_free));
    cpu_user_slope = w.minus current.cpu_user last.cpu_user;
    cpu_system_slope = w.minus current.cpu_system last.cpu_system;
    cpu_idle_slope = w.minus current.cpu_idle last.cpu_idle;
    n_th = first.n_th;
    mem_used = first.mem_used;
    mem_buffers = first.mem_buffers;
    swap_used = first.swap_used;
    cpu_user = first.cpu_user;
    cpu_nice = first.cpu_nice;
    cpu_system = first.cpu_system;
    cpu_iowait = first.cpu_iowait;
    cpu_idle = first.cpu_idle;
  }

  -- The model that is chosen makes no difference.
  unfoldable pub get_predicted_mttf :
      (memory : SystemFeaturesWithSlopes W)
      → (ml_model : ℕ) → (last_features current_features init_features : SystemFeatures W) → W
  unfolding calculate_linear_regression
  get_predicted_mttf memory ml_model last_features current_features init_features =
      calculate_linear_regression (with_slopes last_features current_features init_features memory)

  unfoldable pub get_predicted_rttc :
      (memory : SystemFeaturesWithSlopes W)
      → (ml_model : ℕ) → (last_features current_features : SystemFeatures W) → W
  unfolding calculate_linear_regression
  get_predicted_rttc memory ml_model last_features current_features =
      calculate_linear_regression (with_slopes last_features current_features last_features memory)

  -- How `communication_thread` uses them.
  abbrev pub linear_models :
      SystemFeaturesWithSlopes W → (ml_model : ℕ) → Models (SystemFeatures W) W
  linear_models memory ml_model = record {
    rejection_rate = λ last current init.
        w.over (w.decimal 1 0) (get_predicted_mttf memory ml_model last current init);
    crashes_soon = λ last current.
        w.lt (get_predicted_rttc memory ml_model last current) (w.decimal ttc_threshold 0);
  }
