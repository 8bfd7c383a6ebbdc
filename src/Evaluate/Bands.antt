-- ===== src/Evaluate/Bands.antt =====
-- The score of internal/evaluate/score.go against the class and its band.
use cablecheck.Base.{◌≡◌, ◌≢◌, ◌↔◌, none, some, List, arith}
use cablecheck.Base.Int.{ℤ, ◌≤ℤ◌}
use cablecheck.Float64.{Float64}
use cablecheck.Model.{HealthClass, inconclusive, Finding}
use cablecheck.Evaluate.Facts.{Facts}
use cablecheck.Evaluate.Thresholds.{Thresholds, default, score_band}
use cablecheck.Evaluate.Score.{clamp_to_band, raw_score, score_for}
use cablecheck.Evaluate.Classify.{classify}
use cablecheck.Evaluate.Engine.{findings_of, evaluate_with, evaluate}

module _ {F : Type 0} where
  clamp_to_band-bounds :
      (v : ℤ) (class : HealthClass) (t : Thresholds F)
      → let b = score_band t class in
        b.low ≤ℤ b.high → (b.low ≤ℤ clamp_to_band v class t) × (clamp_to_band v class t ≤ℤ b.high)
  unfolding clamp_to_band
  clamp_to_band-bounds v class t h = ground arith

module _ (F : Type 0) ⦃fl : Float64 F⦄ where
  -- Two disjoint default bands share no number.
  default_bands-eq :
      (c d : HealthClass) (v : ℤ)
      → c ≢ inconclusive
      → d ≢ inconclusive
      → let b = score_band (default {F = F}) c in
        let e = score_band (default {F = F}) d in
        (b.low ≤ℤ v) × (v ≤ℤ b.high) → (e.low ≤ℤ v) × (v ≤ℤ e.high) → c ≡ d
  default_bands-eq c d v hc hd hb he = ground arith

  default_bands-low-le :
      (c : HealthClass) → let b = score_band (default {F = F}) c in b.low ≤ℤ b.high
  default_bands-low-le c = ground arith

module _ {F : Type 0} ⦃fl : Float64 F⦄ where
  score_for-none_iff :
      (f : Facts F) (fds : List Finding) (class : HealthClass) (t : Thresholds F)
      → (score_for f fds class t ≡ none) ↔ (class ≡ inconclusive)
  unfolding score_for
  score_for-none_iff f fds class t = ground arith

  score_for-eq :
      (f : Facts F) (fds : List Finding) (class : HealthClass) (t : Thresholds F) (v : ℤ)
      → score_for f fds class t ≡ some v
      → v ≡ clamp_to_band (fl.round (raw_score f fds t)) class t
  unfolding score_for
  score_for-eq f fds class t v h = ground arith

  -- A run has no score exactly when it is inconclusive.
  evaluate_with-none_iff :
      (f : Facts F) (t : Thresholds F)
      → ((evaluate_with f t).score ≡ none) ↔ ((evaluate_with f t).class ≡ inconclusive)
  unfolding evaluate_with
  evaluate_with-none_iff f t = score_for-none_iff f (findings_of f t) (classify (findings_of f t)) t

  -- Under any policy with a proper band for the class, a score lies in the band of the class.
  pub evaluate_with-bounds :
      (f : Facts F) (t : Thresholds F) (v : ℤ)
      → (evaluate_with f t).score ≡ some v
      → (score_band t (evaluate_with f t).class).low
        ≤ℤ (score_band t (evaluate_with f t).class).high
      → let b = score_band t (evaluate_with f t).class in (b.low ≤ℤ v) × (v ≤ℤ b.high)
  unfolding evaluate_with
  evaluate_with-bounds f t v e h =
      let fds = findings_of f t in
      rw (score_for-eq f fds (classify fds) t v e)
        (clamp_to_band-bounds (fl.round (raw_score f fds t)) (classify fds) t h)

  scored :
      (f : Facts F) (t : Thresholds F) (v : ℤ)
      → (evaluate_with f t).score ≡ some v
      → (evaluate_with f t).class ≢ inconclusive
  scored f t v h e = ground (arith, evaluate_with-none_iff f t)

  -- Under the default policy two runs with the same score are of the same class: score and class
  -- never contradict each other.
  pub evaluate-class_of_score :
      (f g : Facts F) (v : ℤ)
      → (evaluate f).score ≡ some v
      → (evaluate g).score ≡ some v
      → (evaluate f).class ≡ (evaluate g).class
  unfolding evaluate
  evaluate-class_of_score f g v hf hg =
      default_bands-eq F (evaluate f).class (evaluate g).class v (scored f default v hf)
        (scored g default v hg)
        (evaluate_with-bounds f default v hf (default_bands-low-le F (evaluate f).class))
        (evaluate_with-bounds g default v hg (default_bands-low-le F (evaluate g).class))
