-- ===== src/Train/Dpo/Kept.antt =====
-- train/dpo.py: the members of the lists that a question goes through.
use model_hub.Prelude.{
  ℕ, zero, suc, ◌+◌, ◌<◌, ◌≡◌, ◌≢◌, ◌↔◌, ◌⊎◌, ◌∙◌, sym, ap, inl, inr, refl, none, some, List, [],
  ◌∷◌, String, ok, get_elem?, In, In-append, ltb, ◌==◌, arith, Bool-cases, Result-cases,
  Option-cases, ok-injective,
}
use mathlib.Core.Path.{subst}
use model_hub.Eval.Records.{PredictionRecord}
use model_hub.Train.Dpo.{
  PreferenceTier, tier_rank, ClassifiedCandidate, classified, post_init, classify_prediction,
  classify_all, PreferencePair, KeptCandidate, kept_candidates, pair_of, pairs_with, all_pairs_of,
}

pub classify_prediction-fields :
    (q : String) (i : ℕ) (p : PredictionRecord) (c : ClassifiedCandidate)
    → classify_prediction q i p ≡ ok c
    → (c.candidate_index ≡ i) × (c.predicted_sql ≡ p.predicted_sql)
unfolding classify_prediction classified post_init
classify_prediction-fields q i p c h = ground arith

-- The prediction at place n of the list is classified as `c`.
abbrev pub Classifies : String → ℕ → List PredictionRecord → ClassifiedCandidate → Type 0
Classifies q i ps c =
    (n : ℕ) × (p : PredictionRecord) × (get_elem? ps n ≡ some p)
    × (classify_prediction q (i + n) p ≡ ok c)

module _ (q : String) where
  pub at_index :
      (j k : ℕ) (p : PredictionRecord) (c : ClassifiedCandidate)
      → j ≡ k
      → classify_prediction q j p ≡ ok c
      → classify_prediction q k p ≡ ok c
  at_index j k p c e h = rw (sym e) h

  -- The first and the later candidates of a list that was classified.
  classify_all_uncons :
      (i : ℕ) (p : PredictionRecord) (ps : List PredictionRecord) (cs : List ClassifiedCandidate)
      → classify_all q i (p ∷ ps) ≡ ok cs
      → (c₀ : ClassifiedCandidate) × (cs₀ : List ClassifiedCandidate) × (classify_prediction q i p
          ≡ ok c₀)
        × (classify_all q (suc i) ps ≡ ok cs₀)
        × (c₀ ∷ cs₀ ≡ cs)
  unfolding classify_all
  classify_all_uncons i p ps cs h = elim (Result-cases (classify_prediction q i p)) [
    | inl (c₀, e) ↦ elim (Result-cases (classify_all q (suc i) ps)) [
      | inl (cs₀, f) ↦ (c₀, cs₀, e, f, ground arith)
      | inr (x, f) ↦ absurd (ground arith)
    ]
    | inr (x, e) ↦ absurd (ground arith)
  ]

  first_or_later :
      (i n : ℕ) (p p' : PredictionRecord) (ps : List PredictionRecord) (c₀ c : ClassifiedCandidate)
      → classify_prediction q i p ≡ ok c₀
      → get_elem? (p ∷ ps) n ≡ some p'
      → classify_prediction q (i + n) p' ≡ ok c
      → (c ≡ c₀) ⊎ Classifies q (suc i) ps c
  first_or_later i zero p p' ps c₀ c e at w =
      let same : p ≡ p' = ground arith in
      inl (ok-injective (sym (at_index (i + 0) i p' c (omega arith) w) ∙ rw (sym same) e))
  first_or_later i (suc n) p p' ps c₀ c e at w =
      inr (n, p', at, at_index (i + suc n) (suc i + n) p' c (omega arith) w)

  pub classify_all-In :
      (i : ℕ) (ps : List PredictionRecord) (cs : List ClassifiedCandidate) (c : ClassifiedCandidate)
      → classify_all q i ps ≡ ok cs
      → In c cs ↔ Classifies q i ps c
  unfolding classify_all
  classify_all-In i [] cs c h =
      let e : [] ≡ cs = ok-injective h in (λ m. absurd (rw (sym e) at m), λ (n, p, g, w). cc)
  classify_all-In i (p ∷ ps) cs c h =
      let (c₀, cs₀, e, f, g) = classify_all_uncons i p ps cs h in
      let ih = classify_all-In (suc i) ps cs₀ c f in
      rw (sym g) (
        λ m. elim m [
          | inl same ↦ (0, p, refl, at_index i (i + 0) p c (omega arith) (rw same e))
          | inr m ↦
              let (n, p', at, w) = ih.0 m in
              (suc n, p', at, at_index (suc i + n) (i + suc n) p' c (omega arith) w)
        ],
        λ (n, p', at, w). elim (first_or_later i n p p' ps c₀ c e at w) [
          | inl same ↦ inl same
          | inr later ↦ inr (ih.1 later)
        ],
      )

kept_candidates_drops :
    (c : ClassifiedCandidate) (cs : List ClassifiedCandidate)
    → c.tier ≡ none
    → kept_candidates (c ∷ cs) ≡ kept_candidates cs
unfolding kept_candidates
kept_candidates_drops c cs e = rw e refl

kept_candidates_keeps :
    (c : ClassifiedCandidate) (cs : List ClassifiedCandidate) (t : PreferenceTier)
    → c.tier ≡ some t
    → kept_candidates (c ∷ cs) ≡ record { candidate = c; tier = t } ∷ kept_candidates cs
unfolding kept_candidates
kept_candidates_keeps c cs t e = simp (e, kept_candidates)

pub kept_candidates-In :
    (cs : List ClassifiedCandidate) (k : KeptCandidate)
    → In k (kept_candidates cs) ↔ (In k.candidate cs × (k.candidate.tier ≡ some k.tier))
unfolding kept_candidates
kept_candidates-In [] k = (λ h. elim h [ ], λ h. elim h.0 [ ])
kept_candidates-In (c ∷ cs) k =
    let ih = kept_candidates-In cs k in
    elim (Option-cases c.tier) [
      | inl e ↦ rw (kept_candidates_drops c cs e) (
        λ h. (inr (ih.0 h).0, (ih.0 h).1),
        λ (m, t). elim m [ inl same ↦ absurd (ground arith) | inr m ↦ ih.1 (m, t) ],
      )
      | inr (t, e) ↦ rw (kept_candidates_keeps c cs t e) (
        λ h. elim h [
          | inl same ↦
              let t_eq : k.tier ≡ t = ap (λ (x : KeptCandidate). x.tier) same in
              let c_eq : k.candidate ≡ c = ap (λ (x : KeptCandidate). x.candidate) same in
              (inl c_eq, ap (λ (x : ClassifiedCandidate). x.tier) c_eq ∙ e ∙ ap some (sym t_eq))
          | inr m ↦ (inr (ih.0 m).0, (ih.0 m).1)
        ],
        λ (m, f). elim m [ inl same ↦ inl (cc) | inr m ↦ inr (ih.1 (m, f)) ],
      )
    ]

-- The pair of `a` and `d` is made.
abbrev pub Pairs : String → KeptCandidate → KeptCandidate → PreferencePair → Type 0
Pairs q a d pair =
    (a.candidate.candidate_index ≢ d.candidate.candidate_index)
    × (tier_rank a.tier < tier_rank d.tier)
    × (pair ≡ pair_of q a d)

pub pairs_with-In :
    (q : String) (a : KeptCandidate) (kept : List KeptCandidate) (pair : PreferencePair)
    → In pair (pairs_with q a kept) ↔ ((d : KeptCandidate) × In d kept × Pairs q a d pair)
unfolding pairs_with
pairs_with-In q a [] pair = (λ h. elim h [ ], λ h. elim h.1 [ ])
pairs_with-In q a (d ∷ kept) pair =
    let ih = pairs_with-In q a kept pair in
    let later : In pair (pairs_with q a kept)
        → (x : KeptCandidate) × In x (d ∷ kept) × Pairs q a x pair =
      λ m. let (x, at, w) = ih.0 m in (x, inr at, w) in
    elim (Bool-cases (a.candidate.candidate_index == d.candidate.candidate_index)) [
      | inl e ↦ rw e (
        later,
        λ (x, m, w). elim m [
          | inl same ↦ absurd (w.0 (rw same (ground arith)))
          | inr m ↦ ih.1 (x, m, w)
        ],
      )
      | inr e ↦ elim (Bool-cases (ltb (tier_rank a.tier) (tier_rank d.tier))) [
        | inl f ↦
            rw (e, f)
              (
                λ h. elim h [
                  | inl same ↦ (d, inl refl, (λ g. absurd (ground arith), ground arith, same))
                  | inr m ↦ later m
                ],
                λ (x, m, w). elim m [
                  | inl same ↦ inl (w.2 ∙ rw same refl)
                  | inr m ↦ inr (ih.1 (x, m, w))
                ],
              )
        | inr f ↦
            rw (e, f)
              (
                later,
                λ (x, m, w). elim m [
                  | inl same ↦
                      let lt : tier_rank a.tier < tier_rank d.tier = rw (sym same) w.1 in
                      absurd (ground arith)
                  | inr m ↦ ih.1 (x, m, w)
                ],
              )
      ]
    ]

pub all_pairs_of-In :
    (q : String) (kept left : List KeptCandidate) (pair : PreferencePair)
    → In pair (all_pairs_of q kept left)
      ↔ ((a : KeptCandidate) × In a left × In pair (pairs_with q a kept))
unfolding all_pairs_of
all_pairs_of-In q kept [] pair = (λ h. elim h [ ], λ h. elim h.1 [ ])
all_pairs_of-In q kept (b ∷ left) pair =
    let ih = all_pairs_of-In q kept left pair in
    let split = In-append pair (pairs_with q b kept) (all_pairs_of q kept left) in
    (
      λ h. elim (split.0 h) [
        | inl here ↦ (b, inl refl, here)
        | inr there ↦ let (a, m, w) = ih.0 there in (a, inr m, w)
      ],
      λ (a, m, w). elim m [
        | inl e ↦ split.1 (inl (subst (λ x. In pair (pairs_with q x kept)) e w))
        | inr m ↦ split.1 (inr (ih.1 (a, m, w)))
      ],
    )
