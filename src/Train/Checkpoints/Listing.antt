-- ===== src/Train/Checkpoints/Listing.antt =====
-- train/checkpoint_state.py: what the listing of checkpoints finds.
use model_hub.Prelude.{
  ℕ, ◌≤◌, ◌≡◌, sym, inl, inr, refl, true, Option, none, some, List, [], ◌∷◌, ◌++◌, map, String, ok,
  err, All, arith, Bool-cases, Option-cases, Result-cases, Ensures, Ensures_ok,
}
use model_hub.Prelude.SortOn.{sort_on-IsAscending}
use model_hub.Prelude.Sorting.{IsAscending, LowerBound}
use model_hub.Common.Errors.{value_error}
use model_hub.Common.AtomicIo.{Entry}
use model_hub.Train.Checkpoints.{
  Checkpoint, is_listed, without_prefix, valid_checkpoints, list_checkpoints, latest,
}

module _ (int_of : String → Option ℕ) where
  valid_checkpoints_no_number :
      (before after : List (String × Entry)) (name : String) (e : Entry)
      → is_listed name e ≡ true
      → int_of (without_prefix name) ≡ none
      → valid_checkpoints int_of (before ++ (name, e) ∷ after) ≡ err value_error
  unfolding valid_checkpoints
  valid_checkpoints_no_number [] after name e listed no_number =
      rw (listed, no_number, valid_checkpoints) refl
  valid_checkpoints_no_number ((n, f) ∷ before) after name e listed no_number =
      let ih = valid_checkpoints_no_number before after name e listed no_number in
      elim (Bool-cases (is_listed n f)) [
        | inl l ↦ elim (Option-cases (int_of (without_prefix n))) [
          | inl x ↦ rw (l, x, valid_checkpoints) refl
          | inr (step, x) ↦ rw (l, x, ih, valid_checkpoints) refl
        ]
        | inr l ↦ rw (l, valid_checkpoints) ih
      ]

  -- A complete checkpoint directory whose name goes on with something that is no number makes the
  -- listing raise, whatever stands beside it.
  pub list_checkpoints_no_number :
      (before after : List (String × Entry)) (name : String) (e : Entry)
      → is_listed name e ≡ true
      → int_of (without_prefix name) ≡ none
      → list_checkpoints int_of (some (before ++ (name, e) ∷ after)) ≡ err value_error
  unfolding list_checkpoints
  list_checkpoints_no_number before after name e listed no_number =
      rw (valid_checkpoints_no_number before after name e listed no_number) refl

  abbrev steps : List Checkpoint → List ℕ
  steps cs = map (λ c. c.step) cs

  abbrev AtMost : Checkpoint → List Checkpoint → Type 0
  AtMost k cs = All (λ x. x.step ≤ k.step) cs

  LowerBound-latest :
      (n : ℕ) (cs : List Checkpoint) (k : Checkpoint)
      → LowerBound n (steps cs)
      → latest cs ≡ some k
      → n ≤ k.step
  unfolding latest
  LowerBound-latest n [] k h e = cc
  LowerBound-latest n (c ∷ []) k h e = let same : c ≡ k = ground arith in rw (sym same) h.0
  LowerBound-latest n (c ∷ (d ∷ cs)) k h e = LowerBound-latest n (d ∷ cs) k h.1 e

  latest-AtMost :
      (cs : List Checkpoint) (k : Checkpoint)
      → IsAscending (steps cs)
      → latest cs ≡ some k
      → AtMost k cs
  unfolding latest
  latest-AtMost [] k h e = tt
  latest-AtMost (c ∷ []) k h e = let same : c ≡ k = ground arith in rw same (omega arith, tt)
  latest-AtMost (c ∷ (d ∷ cs)) k h e =
      (LowerBound-latest c.step (d ∷ cs) k h.0 e, latest-AtMost (d ∷ cs) k h.1 e)

  list_checkpoints-Ensures :
      (children : Option (List (String × Entry)))
      → Ensures (λ cs. IsAscending (steps cs)) (list_checkpoints int_of children)
  unfolding list_checkpoints
  list_checkpoints-Ensures none = tt
  list_checkpoints-Ensures (some children) =
      elim (Result-cases (valid_checkpoints int_of children)) [
        | inl (cs, e) ↦ rw e (sort_on-IsAscending (λ c. c.step) cs)
        | inr (x, e) ↦ rw e tt
      ]

  -- A listing that is returned is in ascending order of its steps, and none of them is greater than
  -- that of the latest checkpoint.
  pub list_checkpoints-latest :
      (children : Option (List (String × Entry))) (cs : List Checkpoint) (k : Checkpoint)
      → list_checkpoints int_of children ≡ ok cs
      → latest cs ≡ some k
      → IsAscending (map (λ c. c.step) cs) × All (λ c. c.step ≤ k.step) cs
  list_checkpoints-latest children cs k e l =
      let sorted =
        Ensures_ok (λ cs. IsAscending (steps cs)) (list_checkpoints int_of children) cs
          (list_checkpoints-Ensures children) e in
      (sorted, latest-AtMost cs k sorted l)
