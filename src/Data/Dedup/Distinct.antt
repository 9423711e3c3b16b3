-- ===== src/Data/Dedup/Distinct.antt =====
-- data/dedup.py: what deduplication keeps.
use model_hub.Prelude.{
  ◌+◌, ◌≡◌, ap, inl, inr, refl, Bool, true, false, ◌&&◌, ◌||◌, List, [], ◌∷◌, String, ok, length,
  All, All-mono, str_eq, str_eq_iff, arith, Bool-cases,
}
use model_hub.Prelude.Counting.{any_if, filter_if}
use model_hub.Data.Schema.{NormalizedSample, Split}
use model_hub.Data.Hashing.{TextLibrary, question_hash}
use model_hub.Data.Dedup.{Scan, scan, dedup_samples}
use model_hub.Data.Splits.{is_split, split_of, same_key, overlaps, assert_splits_disjoint}

str_eq_sym : (s t : String) → str_eq s t ≡ str_eq t s
str_eq_sym s t = ground (arith, str_eq_iff s t, str_eq_iff t s)

module _ (t : TextLibrary) where
  abbrev hash_of : NormalizedSample → String
  hash_of s = question_hash t s.question

  abbrev Unseen : List String → NormalizedSample → Type 0
  Unseen seen s = any_if (str_eq (hash_of s)) seen ≡ false

  -- No two of the samples have the same question hash.
  abbrev pub DistinctQuestions : List NormalizedSample → Type 0
  DistinctQuestions [] = Unit
  DistinctQuestions (s ∷ samples) =
      All (λ x. str_eq (hash_of x) (hash_of s) ≡ false) samples × DistinctQuestions samples

  -- The two steps of the loop.
  scan_drops :
      (seen : List String) (s : NormalizedSample) (samples : List NormalizedSample)
      → any_if (str_eq (hash_of s)) seen ≡ true
      → scan t seen (s ∷ samples) ≡ record {
        kept = (scan t seen samples).kept;
        dropped = s.sample_id ∷ (scan t seen samples).dropped;
      }
  unfolding scan
  scan_drops seen s samples e = rw (e, scan) refl

  scan_keeps :
      (seen : List String) (s : NormalizedSample) (samples : List NormalizedSample)
      → any_if (str_eq (hash_of s)) seen ≡ false
      → scan t seen (s ∷ samples) ≡ record {
        kept = s ∷ (scan t (hash_of s ∷ seen) samples).kept;
        dropped = (scan t (hash_of s ∷ seen) samples).dropped;
      }
  unfolding scan
  scan_keeps seen s samples e = rw (e, scan) refl

  scan-DistinctQuestions :
      (seen : List String) (samples : List NormalizedSample)
      → All (Unseen seen) (scan t seen samples).kept × DistinctQuestions (scan t seen samples).kept
  unfolding scan
  scan-DistinctQuestions seen [] = (tt, tt)
  scan-DistinctQuestions seen (s ∷ samples) = elim (Bool-cases (any_if (str_eq (hash_of s)) seen)) [
    | inl e ↦ rw (scan_drops seen s samples e) (scan-DistinctQuestions seen samples)
    | inr e ↦
        let ih = scan-DistinctQuestions (hash_of s ∷ seen) samples in
        let rest = (scan t (hash_of s ∷ seen) samples).kept in
        rw (scan_keeps seen s samples e) (
          (e, All-mono (Unseen (hash_of s ∷ seen)) (Unseen seen) (λ x h. ground arith) rest ih.0),
          (
            All-mono (Unseen (hash_of s ∷ seen)) (λ x. str_eq (hash_of x) (hash_of s) ≡ false)
                (λ x h. ground arith) rest ih.0,
            ih.1,
          ),
        )
  ]

  scan-length :
      (seen : List String) (samples : List NormalizedSample)
      → length (scan t seen samples).kept + length (scan t seen samples).dropped ≡ length samples
  unfolding scan
  scan-length seen [] = refl
  scan-length seen (s ∷ samples) = elim (Bool-cases (any_if (str_eq (hash_of s)) seen)) [
    | inl e ↦ rw (scan_drops seen s samples e) (omega (arith, scan-length seen samples))
    | inr e ↦
        rw (scan_keeps seen s samples e) (omega (arith, scan-length (hash_of s ∷ seen) samples))
  ]

  -- A list without duplicates is kept as it is.
  scan-kept :
      (seen : List String) (samples : List NormalizedSample)
      → All (Unseen seen) samples
      → DistinctQuestions samples
      → scan t seen samples ≡ record { kept = samples; dropped = [] }
  unfolding scan
  scan-kept seen [] h d = refl
  scan-kept seen (s ∷ samples) h d =
      let unseen : All (Unseen (hash_of s ∷ seen)) samples = both seen s samples h.1 d.0 in
      let ih = scan-kept (hash_of s ∷ seen) samples unseen d.1 in
      rw (scan_keeps seen s samples h.0, ih) refl
    where
      both :
          (seen : List String) (s : NormalizedSample) (xs : List NormalizedSample)
          → All (Unseen seen) xs
          → All (λ x. str_eq (hash_of x) (hash_of s) ≡ false) xs
          → All (Unseen (hash_of s ∷ seen)) xs
      both seen s [] h d = tt
      both seen s (x ∷ xs) h d = (rw (d.0, h.0) refl, both seen s xs h.1 d.1)

  Unseen-at_first : (samples : List NormalizedSample) → All (Unseen []) samples
  Unseen-at_first [] = tt
  Unseen-at_first (s ∷ samples) = (refl, Unseen-at_first samples)

  -- Deduplication keeps samples with distinct questions, counts every sample as kept or as dropped,
  -- and does nothing to samples that it has kept.
  pub dedup_samples_lem :
      (samples : List NormalizedSample)
      → let r = dedup_samples t samples in
        DistinctQuestions r.samples
        × (r.stats.output_count + r.stats.question_level_duplicates ≡ r.stats.input_count)
        × (r.stats.input_count ≡ length samples)
        × (r.stats.output_count ≡ length r.samples)
        × ((dedup_samples t r.samples).samples ≡ r.samples)
        × ((dedup_samples t r.samples).dropped_sample_ids ≡ [])
  unfolding dedup_samples
  dedup_samples_lem samples =
      let kept = (scan t [] samples).kept in
      let distinct = (scan-DistinctQuestions [] samples).1 in
      let again = scan-kept [] kept (Unseen-at_first kept) distinct in
      (
        distinct,
        scan-length [] samples,
        refl,
        refl,
        ap (λ (r : Scan). r.kept) again,
        ap (λ (r : Scan). r.dropped) again,
      )

  -- A sample is not in a list of samples with other questions, whatever part of it is taken.
  other_questions :
      (s : NormalizedSample) (q : NormalizedSample → Bool) (xs : List NormalizedSample)
      → All (λ x. str_eq (hash_of x) (hash_of s) ≡ false) xs
      → any_if (same_key t s) (filter_if q xs) ≡ false
  other_questions s q [] h = refl
  other_questions s q (x ∷ xs) h =
      ground (arith, str_eq_sym (hash_of s) (hash_of x), other_questions s q xs h.1)

  overlaps-cons :
      (p : NormalizedSample → Bool) (s : NormalizedSample) (xs ys : List NormalizedSample)
      → All (λ x. str_eq (hash_of x) (hash_of s) ≡ false) xs
      → overlaps t (filter_if p xs) ys ≡ false
      → overlaps t (filter_if p xs) (s ∷ ys) ≡ false
  overlaps-cons p s [] ys h o = refl
  overlaps-cons p s (x ∷ xs) ys h o = elim (Bool-cases (p x)) [
    | inl e ↦
        let found : (any_if (same_key t x) ys || overlaps t (filter_if p xs) ys) ≡ false =
          rw e at o in
        let ih = overlaps-cons p s xs ys h.1 (ground arith) in
        let here : any_if (same_key t x) ys ≡ false = ground arith in rw (e, h.0, here) ih
    | inr e ↦
        let rest : overlaps t (filter_if p xs) ys ≡ false = rw e at o in
        rw e (overlaps-cons p s xs ys h.1 rest)
  ]

  overlaps_of :
      (xs xs' ys ys' : List NormalizedSample)
      → xs ≡ xs'
      → ys ≡ ys'
      → overlaps t xs' ys' ≡ false
      → overlaps t xs ys ≡ false
  overlaps_of xs xs' ys ys' e f h = rw (e, f) h

  -- Two parts of distinct samples that share none have no key in common.
  parts-overlaps :
      (p q : NormalizedSample → Bool) (xs : List NormalizedSample)
      → DistinctQuestions xs
      → ((s : NormalizedSample) → (p s && q s) ≡ false)
      → overlaps t (filter_if p xs) (filter_if q xs) ≡ false
  parts-overlaps p q [] d apart = refl
  parts-overlaps p q (s ∷ xs) d apart =
      let ih = parts-overlaps p q xs d.1 apart in
      let o = other_questions s q xs d.0 in
      elim (Bool-cases (p s)) [
        | inl e ↦
            let f : q s ≡ false = ground (arith, apart s) in
            overlaps_of (filter_if p (s ∷ xs)) (s ∷ filter_if p xs) (filter_if q (s ∷ xs))
              (filter_if q xs) (rw e refl) (rw f refl) (rw o ih)
        | inr e ↦ elim (Bool-cases (q s)) [
          | inl f ↦ rw (e, f) (overlaps-cons p s xs (filter_if q xs) d.0 ih)
          | inr f ↦ rw (e, f) ih
        ]
      ]

  splits_apart :
      (a b : Split)
      → is_split a b ≡ false
      → (s : NormalizedSample) → (is_split s.split a && is_split s.split b) ≡ false
  splits_apart a b h s = by_split a b s.split h
    where
      by_split : (a b c : Split) → is_split a b ≡ false → (is_split c a && is_split c b) ≡ false
      by_split a b c h = ground arith

  -- The splits of deduplicated samples are always disjoint.
  pub assert_splits_disjoint-dedup_samples :
      (samples : List NormalizedSample)
      → let kept = (dedup_samples t samples).samples in
        assert_splits_disjoint t
          (split_of kept Split.train)
          (split_of kept Split.dev)
          (split_of kept Split.test)
        ≡ ok tt
  unfolding assert_splits_disjoint split_of
  assert_splits_disjoint-dedup_samples samples =
      let kept = (dedup_samples t samples).samples in
      let apart = λ (a b : Split) (h : is_split a b ≡ false).
        parts-overlaps (λ s. is_split s.split a) (λ s. is_split s.split b) kept
          (dedup_samples_lem samples).0 (splits_apart a b h) in
      rw
        (
          apart Split.train Split.dev refl,
          apart Split.train Split.test refl,
          apart Split.dev Split.test refl,
        )
        refl
