-- ===== src/Common/Manifest.antt =====
-- common/run_manifest.py: the fields of a run manifest that decide whether its numbers may be used.
use model_hub.Prelude.{
  ℕ, ◌≡◌, ◌≢◌, ◌↔◌, Bool, true, false, ◌||◌, Option, none, some, List, [], ◌∷◌, ◌++◌, String, arith,
  Result, ok, err, if◌then◌else◌,
}
use model_hub.Common.Errors.{ModelHubError, manifest_error, run_polluted, release, text, texts}

pub record KernelStatus : Type 0 where
  pub causal_conv1d : Bool
  pub fla : Bool
  pub degraded : Bool

pub data EvalTier : Type 0 where
  quick full : EvalTier

pub record RunManifest : Type 0 where
  pub run_id : String
  pub git_dirty : Bool
  pub dataset_version : Option String
  pub dataset_hash : Option String
  pub eval_tier : Option EvalTier
  pub model_id : Option String
  pub comparator_version : Option String
  pub kernel_status : Option KernelStatus
  pub seed : Option ℕ
  pub n_samples : Option ℕ
  pub contaminated : Bool

abbrev kernel_degraded : Option KernelStatus → Bool
kernel_degraded none = false
kernel_degraded (some k) = k.degraded

pub degraded : RunManifest → Bool
degraded m = kernel_degraded m.kernel_status

unfoldable pub is_polluted : RunManifest → Bool
unfolding degraded
is_polluted m = m.git_dirty || m.contaminated || degraded m

unfoldable pub pollution_reasons : RunManifest → List String
unfolding degraded
pollution_reasons m =
    (if m.git_dirty then "git_dirty=true" ∷ [] else [])
    ++ ((if m.contaminated then "contaminated=true" ∷ [] else [])
        ++ (if degraded m then "kernel_status.degraded=true" ∷ [] else []))

abbrev pollution_error : RunManifest → String → ModelHubError
pollution_error m purpose = record {
  error_class = manifest_error;
  code = run_polluted;
  stage = release;
  context =
      ("run_id", text m.run_id)
      ∷ ("purpose", text purpose)
      ∷ ("reasons", texts (pollution_reasons m))
      ∷ [];
  retryable = false;
}

unfoldable pub assert_not_polluted : RunManifest → String → Result ModelHubError (Unit {0})
unfolding is_polluted
assert_not_polluted m purpose = if is_polluted m then err (pollution_error m purpose) else ok tt

-- A manifest is polluted exactly when some reason is listed.
pub pollution_reasons-is_polluted :
    (m : RunManifest) → (is_polluted m ≡ true) ↔ (pollution_reasons m ≢ [])
unfolding is_polluted pollution_reasons
pollution_reasons-is_polluted m = (λ h. ground arith, λ h. ground arith)
