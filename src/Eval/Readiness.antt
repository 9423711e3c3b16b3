-- ===== src/Eval/Readiness.antt =====
-- eval/report.py: when a report may be made. The text of a report is left out.
use model_hub.Prelude.{
  ◌≡◌, ◌≢◌, ◌↔◌, false, Option, none, some, List, [], ◌∷◌, ◌++◌, String, Result, ok, err, ◌>>=◌,
  length, ◌==◌, if◌then◌else◌, arith,
}
use model_hub.Common.Errors.{
  ModelHubError, report_error, report_required_field_missing, eval, text, texts,
}
use model_hub.Common.Manifest.{RunManifest, assert_not_polluted, is_polluted}

-- A field of `REQUIRED_MANIFEST_FIELDS` by its name, where it is None.
abbrev missing_if_none {ℓ} : {A : Type ℓ} → String → Option A → List String
missing_if_none name none = name ∷ []
missing_if_none name (some a) = []

unfoldable pub missing_fields : RunManifest → List String
missing_fields m =
    missing_if_none "dataset_version" m.dataset_version
    ++ (missing_if_none "dataset_hash" m.dataset_hash
        ++ (missing_if_none "eval_tier" m.eval_tier
            ++ (missing_if_none "model_id" m.model_id
                ++ (missing_if_none "comparator_version" m.comparator_version
                    ++ (missing_if_none "seed" m.seed
                        ++ missing_if_none "n_samples" m.n_samples)))))

unfoldable pub missing_error : RunManifest → ModelHubError
unfolding missing_fields
missing_error m = record {
  error_class = report_error;
  code = report_required_field_missing;
  stage = eval;
  context = ("run_id", text m.run_id) ∷ (("missing_fields", texts (missing_fields m)) ∷ []);
  retryable = false;
}

unfoldable pub assert_report_ready : RunManifest → Result ModelHubError (Unit {0})
unfolding missing_error
assert_report_ready m = assert_not_polluted m "eval report generation" >>= λ u.
    if length (missing_fields m) == 0 then ok tt else err (missing_error m)

-- Every required field of the manifest is there.
abbrev pub IsComplete : RunManifest → Type 0
IsComplete m =
    (m.dataset_version ≢ none)
    × (m.dataset_hash ≢ none)
    × (m.eval_tier ≢ none)
    × (m.model_id ≢ none)
    × (m.comparator_version ≢ none)
    × (m.seed ≢ none)
    × (m.n_samples ≢ none)

-- A report may be made exactly for a manifest that is not polluted and has every required field.
pub assert_report_ready_iff :
    (m : RunManifest) → (assert_report_ready m ≡ ok tt) ↔ ((is_polluted m ≡ false) × IsComplete m)
unfolding assert_report_ready assert_not_polluted missing_fields
assert_report_ready_iff m = (λ h. ground arith, λ h. ground arith)
