-- ===== src/Materials/Classifier/Caution.antt =====
-- What the classifier needs before it moves anything.
use gasu_schedule_bot.Base.{◌≡◌, true, false, arith}
use gasu_schedule_bot.Materials.Classifier.{
  TextTools, MaterialEvidence, leave, assess_material, is_explicit_academic, is_explicit_social,
  gained, lost,
}

module _ (tools : TextTools) (e : MaterialEvidence) where
  -- Under the default thresholds of 0.95 and 0.70, a material with no explicit academic context is
  -- left where it is, whatever its type, its topic, its discipline and its text.
  pub no_context_leaves :
      is_explicit_academic tools e ≡ false → (assess_material tools 95 70 e).route ≡ leave
  unfolding assess_material gained lost
  no_context_leaves h = ground (arith, h)

  -- Under the default thresholds, a material with an explicit social context is left where it is,
  -- however academic it looks otherwise.
  pub social_context_leaves :
      is_explicit_social tools e ≡ true → (assess_material tools 95 70 e).route ≡ leave
  unfolding assess_material gained lost
  social_context_leaves h = ground (arith, h)
