-- ===== src/Predictions/Memory.antt =====
-- What the predictions take from memory that nothing has written.
use a2pm.Common.{ℕ, ◌≡◌, refl}
use a2pm.Predictions.{Float, SystemFeatures, SystemFeaturesWithSlopes, get_predicted_rttc}

module _ {W : Type 0} ⦃w : Float W⦄ where
  -- The prediction of the time to crash does not depend on the model that is chosen, and of the
  -- struct that is filled it takes nothing from before the call but `mem_free` and `mem_cached`.
  pub get_predicted_rttc-memory :
      (f g : SystemFeaturesWithSlopes W) (m n : ℕ) (last current : SystemFeatures W)
      → f.mem_free ≡ g.mem_free
      → f.mem_cached ≡ g.mem_cached
      → get_predicted_rttc f m last current ≡ get_predicted_rttc g n last current
  unfolding get_predicted_rttc
  get_predicted_rttc-memory f g m n last current e e' = rw (e, e') refl
