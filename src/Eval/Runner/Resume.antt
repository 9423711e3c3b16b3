-- ===== src/Eval/Runner/Resume.antt =====
-- eval/runner.py: an evaluation that was cut off goes on where it stopped.
use model_hub.Prelude.{
  ◌≡◌, ◌∙◌, sym, ap, inl, inr, refl, Bool, true, false, not, Option, none, List, [], ◌∷◌, ◌++◌, map,
  String, Result, ok, All, All-mono, str_eq, str_eq_refl, arith, Bool-cases,
}
use mathlib.Core.List.{append_assoc, append-nil, map-append}
use model_hub.Prelude.Counting.{filter_if}
use model_hub.Prelude.Dict.{Dict, lookup, contains, insert}
use model_hub.Common.Errors.{Exception}
use model_hub.Data.Schema.{NormalizedSample}
use model_hub.Eval.Records.{PredictionRecord}
use model_hub.Eval.RecordFile.{RecordJson, persisted, load_existing}
use model_hub.Eval.RecordFile.RoundTrip.{IsPersistable, index_records, load_existing-persisted}
use model_hub.Eval.Runner.{dict_values, run_pending, run_eval}

-- No two of the samples have the same id.
abbrev pub DistinctIds : List NormalizedSample → Type 0
DistinctIds [] = Unit
DistinctIds (s ∷ samples) =
    All (λ x. str_eq x.sample_id s.sample_id ≡ false) samples × DistinctIds samples

module _ {A : Type 0} (P : A → Type 0) where
  All-parts : (xs ys : List A) → All P (xs ++ ys) → All P xs × All P ys
  All-parts [] ys h = (tt, h)
  All-parts (x ∷ xs) ys h = let (a, b) = All-parts xs ys h.1 in ((h.0, a), b)

filter_if-append :
    (p : NormalizedSample → Bool) (xs ys : List NormalizedSample)
    → All (λ x. p x ≡ false) xs
    → All (λ x. p x ≡ true) ys
    → filter_if p (xs ++ ys) ≡ ys
filter_if-append p [] [] h k = refl
filter_if-append p [] (y ∷ ys) h k =
    rw k.0 (ap (λ (zs : List NormalizedSample). y ∷ zs) (filter_if-append p [] ys tt k.1))
filter_if-append p (x ∷ xs) ys h k = rw h.0 (filter_if-append p xs ys h.1 k)

module _ {V : Type 0} where
  insert_fresh :
      (k : String) (v : V) (d : Dict V) → lookup k d ≡ none → insert k v d ≡ d ++ (k, v) ∷ []
  insert_fresh k v [] h = refl
  insert_fresh k v ((j, w) ∷ d) h = elim (Bool-cases (str_eq k j)) [
    | inl e ↦ absurd (ground arith)
    | inr e ↦
        let h' : lookup k d ≡ none = ground arith in
        rw e (ap (λ (m : Dict V). (j, w) ∷ m) (insert_fresh k v d h'))
  ]

  lookup-append_fresh :
      (k j : String) (v : V) (d : Dict V)
      → lookup k d ≡ none
      → str_eq k j ≡ false
      → lookup k (d ++ (j, v) ∷ []) ≡ none
  lookup-append_fresh k j v [] h e = rw e refl
  lookup-append_fresh k j v ((i, w) ∷ d) h e = elim (Bool-cases (str_eq k i)) [
    | inl f ↦ absurd (ground arith)
    | inr f ↦ let h' : lookup k d ≡ none = ground arith in rw f (lookup-append_fresh k j v d h' e)
  ]

module _ (j : RecordJson) (predict : NormalizedSample → Result Exception PredictionRecord)
    (record_for : NormalizedSample → PredictionRecord)
    (predicts : (s : NormalizedSample) → predict s ≡ ok (record_for s))
    (same_id : (s : NormalizedSample) → (record_for s).sample_id ≡ s.sample_id) where
  abbrev entries : List NormalizedSample → Dict PredictionRecord
  entries samples = map (λ s. (s.sample_id, record_for s)) samples

  abbrev records_for : List NormalizedSample → List PredictionRecord
  records_for samples = map record_for samples

  index_records-entries :
      (done : List NormalizedSample) (d : Dict PredictionRecord)
      → All (λ s. lookup s.sample_id d ≡ none) done
      → DistinctIds done
      → index_records (records_for done) d ≡ d ++ entries done
  index_records-entries [] d h distinct = sym (append-nil d)
  index_records-entries (s ∷ done) d h distinct =
      let d' = d ++ (s.sample_id, record_for s) ∷ [] in
      let fresh : insert (record_for s).sample_id (record_for s) d ≡ d' =
        ap (λ (k : String). insert k (record_for s) d) (same_id s)
        ∙ insert_fresh s.sample_id (record_for s) d h.0 in
      ap (λ (m : Dict PredictionRecord). index_records (records_for done) m) fresh
      ∙ index_records-entries done d' (still_fresh done h.1 distinct.0) distinct.1
      ∙ append_assoc d ((s.sample_id, record_for s) ∷ []) (entries done)
    where
      still_fresh :
          (xs : List NormalizedSample)
          → All (λ x. lookup x.sample_id d ≡ none) xs
          → All (λ x. str_eq x.sample_id s.sample_id ≡ false) xs
          → All (λ x. lookup x.sample_id (d ++ (s.sample_id, record_for s) ∷ []) ≡ none) xs
      still_fresh [] a b = tt
      still_fresh (x ∷ xs) a b = (
        lookup-append_fresh x.sample_id s.sample_id (record_for s) d a.0 b.0,
        still_fresh xs a.1 b.1,
      )

  dict_values-entries :
      (samples : List NormalizedSample) → dict_values (entries samples) ≡ records_for samples
  dict_values-entries [] = refl
  dict_values-entries (s ∷ samples) =
      ap (λ (rs : List PredictionRecord). record_for s ∷ rs) (dict_values-entries samples)

  contains_more :
      (s : NormalizedSample) (d : Dict PredictionRecord) (xs : List NormalizedSample)
      → All (λ x. contains x.sample_id d ≡ true) xs
      → All (λ x. contains x.sample_id ((s.sample_id, record_for s) ∷ d) ≡ true) xs
  contains_more s d [] h = tt
  contains_more s d (x ∷ xs) h = (ground arith, contains_more s d xs h.1)

  entries-contains :
      (done : List NormalizedSample) → All (λ s. contains s.sample_id (entries done) ≡ true) done
  entries-contains [] = tt
  entries-contains (s ∷ done) = (
    ground (arith, str_eq_refl s.sample_id),
    contains_more s (entries done) done (entries-contains done),
  )

  rest_fresh :
      (done rest : List NormalizedSample)
      → DistinctIds (done ++ rest)
      → All (λ x. lookup x.sample_id (entries done) ≡ none) rest × DistinctIds done
  rest_fresh [] rest h = (nothing rest, tt)
    where
      nothing :
          (xs : List NormalizedSample) → All (λ x. ◌≡◌ {A = Option PredictionRecord} none none) xs
      nothing [] = tt
      nothing (x ∷ xs) = (refl, nothing xs)
  rest_fresh (s ∷ done) rest h =
      let (fresh, distinct) = rest_fresh done rest h.1 in
      let (apart_done, apart_rest) =
        All-parts (λ x. str_eq x.sample_id s.sample_id ≡ false) done rest h.0 in
      (both rest fresh apart_rest, (apart_done, distinct))
    where
      both :
          (xs : List NormalizedSample)
          → All (λ x. lookup x.sample_id (entries done) ≡ none) xs
          → All (λ x. str_eq x.sample_id s.sample_id ≡ false) xs
          → All (λ x. lookup x.sample_id (entries (s ∷ done)) ≡ none) xs
      both [] a b = tt
      both (x ∷ xs) a b = (rw b.0 a.0, both xs a.1 b.1)

  run_pending_lem :
      (pending : List NormalizedSample) (records : List PredictionRecord)
      → run_pending j predict pending records (persisted j records)
        ≡ (ok (records ++ records_for pending), persisted j (records ++ records_for pending))
  unfolding run_pending
  run_pending_lem [] records = rw (append-nil records) refl
  run_pending_lem (s ∷ pending) records =
      rw (predicts s, run_pending)
        (run_pending_lem pending (records ++ record_for s ∷ [])
          ∙ rw (append_assoc records (record_for s ∷ []) (records_for pending)) refl)

  -- When every sample gets a record with its id, no two samples have the same id, and the JSON of the
  -- records made before is read back, is not blank and has no line boundary, a run of the evaluation
  -- over the file that a run cut off after any number of samples has left ends with the records of
  -- all samples, in their order, returned and in the file: the same as a run that was never cut off.
  pub run_eval_resumes :
      (done rest : List NormalizedSample)
      → DistinctIds (done ++ rest)
      → All (IsPersistable j) (records_for done)
      → run_eval j predict (done ++ rest) (persisted j (records_for done))
        ≡ (ok (records_for (done ++ rest)), persisted j (records_for (done ++ rest)))
  unfolding run_eval
  run_eval_resumes done rest distinct persistable =
      let (fresh, distinct_done) = rest_fresh done rest distinct in
      let loaded : load_existing j (persisted j (records_for done)) ≡ ok (entries done) =
        load_existing-persisted j (records_for done) persistable
        ∙ ap ok (index_records-entries done [] (at_first done) distinct_done) in
      let pending : filter_if (λ s. not (contains s.sample_id (entries done))) (done ++ rest)
          ≡ rest =
        filter_if-append (λ s. not (contains s.sample_id (entries done))) done rest
          (All-mono (λ s. contains s.sample_id (entries done) ≡ true)
            (λ s. not (contains s.sample_id (entries done)) ≡ false) (λ x h. ground arith) done
            (entries-contains done))
          (All-mono (λ s. lookup s.sample_id (entries done) ≡ none)
            (λ s. not (contains s.sample_id (entries done)) ≡ true) (λ x h. ground arith) rest
            fresh) in
      rw (loaded, run_eval, pending, dict_values-entries done)
        (run_pending_lem rest (records_for done) ∙ rw (map-append record_for done rest) refl)
    where
      at_first :
          (xs : List NormalizedSample)
          → All (λ s. lookup {V = PredictionRecord} s.sample_id [] ≡ none) xs
      at_first [] = tt
      at_first (x ∷ xs) = (refl, at_first xs)
