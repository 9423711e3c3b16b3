-- ===== src/Release/Sampling.antt =====
-- release/online_sampling.py. `draw` is `random.Random(seed).sample`: the standard library's
-- generator is a parameter. The wanted size is an integer, since a negative one is refused.
use model_hub.Prelude.{
  ℕ, List, map, Result, ok, err, length, leb, if◌then◌else◌, ◌≤◌, ◌≡◌, refl, arith, length-map,
  Bool-cases, inl, inr,
}
use model_hub.Prelude.Int.{ℤ, pos, negsuc}
use model_hub.Common.Errors.{Exception, value_error, is_exec_ok}
use model_hub.Eval.Records.{PredictionRecord, is_harness_error}
use model_hub.Release.Health.{CanaryHealthSample}

-- The seed, the population and how many of it to draw.
abbrev pub Draw : Type 0
Draw = ℕ → List PredictionRecord → ℕ → List PredictionRecord

-- `sample` returns as many elements as it is asked for, when the population has them.
abbrev pub DrawsAll : Draw → Type 0
DrawsAll draw =
    (seed : ℕ) (l : List PredictionRecord) (k : ℕ) → k ≤ length l → length (draw seed l k) ≡ k

unfoldable pub sample_recent_predictions :
    Draw → List PredictionRecord → ℤ → ℕ → Result Exception (List PredictionRecord)
sample_recent_predictions draw predictions (negsuc n) seed = err value_error
sample_recent_predictions draw predictions (pos n) seed =
    if leb (length predictions) n then ok predictions else ok (draw seed predictions n)

abbrev pub health_sample : PredictionRecord → CanaryHealthSample
health_sample p = record {
  succeeded = is_exec_ok p.exec_code;
  is_harness_error = is_harness_error p;
  latency = p.elapsed;
}

unfoldable pub predictions_to_health_samples : List PredictionRecord → List CanaryHealthSample
predictions_to_health_samples predictions = map health_sample predictions

-- As many predictions are sampled as asked for, or all of them when there are fewer.
pub length-sample_recent_predictions :
    (draw : Draw) (predictions : List PredictionRecord) (n seed : ℕ)
    → DrawsAll draw
    → (l : List PredictionRecord) × (sample_recent_predictions draw predictions (pos n) seed ≡ ok l)
      × (length (predictions_to_health_samples l)
          ≡ (if leb (length predictions) n then length predictions else n))
unfolding sample_recent_predictions predictions_to_health_samples
length-sample_recent_predictions draw predictions n seed h =
    elim (Bool-cases (leb (length predictions) n)) [
      | inl t ↦ (
        predictions,
        rw (t, sample_recent_predictions) refl,
        rw t (length-map health_sample predictions),
      )
      | inr f ↦ (
        draw seed predictions n,
        rw (f, sample_recent_predictions) refl,
        rw f (
            rw (length-map health_sample (draw seed predictions n))
              (h seed predictions n (ground arith))),
      )
    ]
