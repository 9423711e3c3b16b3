-- ===== src/Gate/Regression.antt =====
-- gate/regression_gate.py: the samples that the baseline answered correctly and the candidate does
-- not.
use model_hub.Prelude.{
  ◌≡◌, refl, sym, ap, ◌∙◌, ◌↔◌, ◌⊎◌, inl, inr, Bool, true, false, not, ◌&&◌, Option, none, some,
  List, [], ◌∷◌, String, str_eq, Bool-cases, In, length, if◌then◌else◌, arith,
}
use model_hub.Prelude.Int.{ℤ, exceeds}
use model_hub.Prelude.Dict.{Dict, lookup, insert, lookup-insert}
use model_hub.Compare.Types.{is_equal}
use model_hub.Eval.Records.{PredictionRecord}
use model_hub.Gate.Types.{GateDecision}
use model_hub.Gate.Checks.{Checked, no_baseline, regressed}

pub record RegressionGateConfig : Type 0 where
  pub max_regressions : ℤ

-- `{r.sample_id: r for r in predictions}`, a loop that lets the last record with an id win.
index_by_id : List PredictionRecord → Dict PredictionRecord → Dict PredictionRecord
index_by_id [] d = d
index_by_id (p ∷ ps) d = index_by_id ps (insert p.sample_id p d)

-- The candidate's record has regressed against the baseline's, if there is one.
is_regression : Option PredictionRecord → PredictionRecord → Bool
is_regression none candidate = false
is_regression (some baseline) candidate =
    is_equal baseline.comparison_result && not (is_equal candidate.comparison_result)

collect_regressions : Dict PredictionRecord → List PredictionRecord → List String
collect_regressions d [] = []
collect_regressions d (c ∷ cs) =
    if is_regression (lookup c.sample_id d) c
    then c.sample_id ∷ collect_regressions d cs
    else collect_regressions d cs

unfoldable pub find_regressions : List PredictionRecord → List PredictionRecord → List String
unfolding index_by_id is_regression collect_regressions
find_regressions baseline_predictions candidate_predictions =
    collect_regressions (index_by_id baseline_predictions []) candidate_predictions

unfoldable pub check_regression_gate :
    Option (List PredictionRecord) → List PredictionRecord → RegressionGateConfig → Checked
check_regression_gate none candidate_predictions config = record {
  gate_name = "regression";
  decision = GateDecision.not_applicable;
  detail = no_baseline;
}
check_regression_gate (some baseline_predictions) candidate_predictions config =
    let regressions = find_regressions baseline_predictions candidate_predictions in
    record {
      gate_name = "regression";
      decision =
          if exceeds (length regressions) config.max_regressions
          then GateDecision.reject
          else GateDecision.pass;
      detail = regressed regressions;
    }

-- The baseline's last record with the id.
pub last_with : String → List PredictionRecord → Option PredictionRecord
last_with k [] = none
last_with k (p ∷ ps) = elim (last_with k ps) [
  | none ↦ if str_eq k p.sample_id then some p else none
  | some q ↦ some q
]

lookup-index_by_id :
    (k : String) (ps : List PredictionRecord) (d : Dict PredictionRecord)
    → lookup k (index_by_id ps d) ≡ elim (last_with k ps) [ none ↦ lookup k d | some q ↦ some q ]
unfolding index_by_id last_with
lookup-index_by_id k [] d = refl
lookup-index_by_id k (p ∷ ps) d =
    ground
      (arith, lookup-index_by_id k ps (insert p.sample_id p d), lookup-insert k p.sample_id p d)

lookup-index :
    (k : String) (ps : List PredictionRecord) → lookup k (index_by_id ps []) ≡ last_with k ps
lookup-index k ps = ground (arith, lookup-index_by_id k ps [])

is_regression-true :
    (o : Option PredictionRecord) (c : PredictionRecord)
    → is_regression o c ≡ true
    → (b : PredictionRecord) × (o ≡ some b)
      × (is_equal b.comparison_result ≡ true)
      × (is_equal c.comparison_result ≡ false)
unfolding is_regression
is_regression-true none c h = cc
is_regression-true (some b) c h = (b, refl, ground arith, ground arith)

-- The baseline's last record with the id is EQUAL, and some candidate record with it is not.
pub record HasRegressed (k : String) (baseline : List PredictionRecord)
    (candidate : List PredictionRecord) : Type 0 where
  pub before : PredictionRecord
  pub after : PredictionRecord
  pub in_baseline : last_with k baseline ≡ some before
  pub was_equal : is_equal before.comparison_result ≡ true
  pub in_candidate : In after candidate
  pub same_id : after.sample_id ≡ k
  pub not_equal : is_equal after.comparison_result ≡ false

module _ (k : String) (baseline : List PredictionRecord) where
  abbrev index : Dict PredictionRecord
  index = index_by_id baseline []

  -- A candidate list that is longer.
  HasRegressed-cons :
      (c : PredictionRecord) (cs : List PredictionRecord)
      → HasRegressed k baseline cs
      → HasRegressed k baseline (c ∷ cs)
  HasRegressed-cons c cs h = record {
    before = h.before;
    after = h.after;
    in_baseline = h.in_baseline;
    was_equal = h.was_equal;
    in_candidate = inr h.in_candidate;
    same_id = h.same_id;
    not_equal = h.not_equal;
  }

  head_regressed :
      (c : PredictionRecord) (cs : List PredictionRecord)
      → c.sample_id ≡ k
      → is_regression (lookup c.sample_id index) c ≡ true
      → HasRegressed k baseline (c ∷ cs)
  head_regressed c cs same h =
      let (b, found, was, now) = is_regression-true (lookup c.sample_id index) c h in
      record {
        before = b;
        after = c;
        in_baseline =
            sym (lookup-index k baseline) ∙ ap (λ (x : String). lookup x index) (sym same) ∙ found;
        was_equal = was;
        in_candidate = inl refl;
        same_id = same;
        not_equal = now;
      }

  In-collected :
      (cs : List PredictionRecord)
      → In k (collect_regressions index cs)
      → HasRegressed k baseline cs
  unfolding collect_regressions
  In-collected [] h = elim h [ ]
  In-collected (c ∷ cs) h = elim (Bool-cases (is_regression (lookup c.sample_id index) c)) [
    | inl e ↦
        let h' : (k ≡ c.sample_id) ⊎ In k (collect_regressions index cs) =
          rw (e, collect_regressions) at h in
        elim h' [
          | inl same ↦ head_regressed c cs (sym same) e
          | inr rest ↦ HasRegressed-cons c cs (In-collected cs rest)
        ]
    | inr e ↦ HasRegressed-cons c cs (In-collected cs (rw (e, collect_regressions) at h))
  ]

  collected-In :
      (cs : List PredictionRecord) (before after : PredictionRecord)
      → last_with k baseline ≡ some before
      → is_equal before.comparison_result ≡ true
      → In after cs
      → after.sample_id ≡ k
      → is_equal after.comparison_result ≡ false
      → In k (collect_regressions index cs)
  unfolding collect_regressions is_regression
  collected-In [] before after found was m same now = m
  collected-In (c ∷ cs) before after found was (inl e) same now =
      let same' : c.sample_id ≡ k = rw (← e) same in
      let found' : lookup c.sample_id index ≡ some before =
        ap (λ (x : String). lookup x index) same' ∙ lookup-index k baseline ∙ found in
      let now' : is_equal c.comparison_result ≡ false = rw (← e) now in
      rw (found', collect_regressions)
        (rw (was, collect_regressions) (rw (now', collect_regressions) (inl (sym same'))))
  collected-In (c ∷ cs) before after found was (inr m) same now =
      elim (Bool-cases (is_regression (lookup c.sample_id index) c)) [
        | inl e ↦
            rw (e, collect_regressions) (inr (collected-In cs before after found was m same now))
        | inr e ↦ rw (e, collect_regressions) (collected-In cs before after found was m same now)
      ]

  -- `find_regressions` lists a sample's id exactly when the baseline's last record with that id is
  -- EQUAL and the candidate has a record with it that is not EQUAL, for whatever reason; an id that
  -- only one of the two runs has is never listed.
  pub find_regressions_iff :
      (candidate : List PredictionRecord)
      → In k (find_regressions baseline candidate) ↔ HasRegressed k baseline candidate
  unfolding find_regressions
  find_regressions_iff candidate = (
    In-collected candidate,
    λ h.
        collected-In candidate h.before h.after h.in_baseline h.was_equal h.in_candidate h.same_id
          h.not_equal,
  )
