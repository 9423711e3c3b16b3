-- ===== src/Train/Preflight/Coverage.antt =====
-- train/gdn_lora_coverage.py: the modules of a coverage report are modules of the model and targets.
use model_hub.Prelude.{
  ℕ, ◌<◌, ◌≡◌, inl, inr, refl, sym, ok-injective, true, Option, none, some, List, [], ◌∷◌, map,
  String, str_eq, str_eq_iff, ok, length, All, In, ◌==◌, arith, Bool-cases,
}
use mathlib.Core.Path.{subst}
use model_hub.Prelude.Counting.{any_if}
use model_hub.Prelude.SortOn.{All-sort_on}
use model_hub.Train.Preflight.{
  LayerModuleInfo, LayerCoverage, common, add_module, by_layer, parse_named_modules, covered,
  coverage_of, compute_trainable_coverage,
}

-- A module's name as the layer and the suffix found in it, where there are any.
abbrev pub Names : Type 0
Names = List (Option (ℕ × String))

-- Every suffix of the layer is that of a module of the model in this layer.
abbrev Comes : Names → LayerModuleInfo → Type 0
Comes names l = All (λ s. In (some (l.layer_index, s)) names) l.module_suffixes

-- The layer has a module of the model that is a target.
abbrev pub IsTrained : Names → List String → LayerCoverage → Type 0
IsTrained names targets l =
    (suffix : String) × In (some (l.layer_index, suffix)) names × In suffix targets

module _ (names : Names) where
  add_module-Comes :
      (i : ℕ) (suffix : String) (layers : List LayerModuleInfo)
      → In (some (i, suffix)) names
      → All (Comes names) layers
      → All (Comes names) (add_module i suffix layers)
  unfolding add_module
  add_module-Comes i suffix [] there h = ((there, tt), tt)
  add_module-Comes i suffix (l ∷ layers) there h = elim (Bool-cases (l.layer_index == i)) [
    | inr e ↦ rw e (h.0, add_module-Comes i suffix layers there h.1)
    | inl e ↦
        let same : l.layer_index ≡ i = ground arith in
        let old : All (λ s. In (some (i, s)) names) l.module_suffixes =
          subst (λ k. All (λ s. In (some (k, s)) names) l.module_suffixes) same h.0 in
        elim (Bool-cases (any_if (str_eq suffix) l.module_suffixes)) [
          | inl known ↦ rw (e, known) (old, h.1)
          | inr fresh ↦ rw (e, fresh) ((there, old), h.1)
        ]
  ]

  by_layer-Comes :
      (rest : Names) (layers : List LayerModuleInfo)
      → ((x : Option (ℕ × String)) → In x rest → In x names)
      → All (Comes names) layers
      → All (Comes names) (by_layer rest layers)
  unfolding by_layer
  by_layer-Comes [] layers among h = h
  by_layer-Comes (none ∷ rest) layers among h =
      by_layer-Comes rest layers (λ x k. among x (inr k)) h
  by_layer-Comes (some (i, suffix) ∷ rest) layers among h =
      by_layer-Comes rest (add_module i suffix layers) (λ x k. among x (inr k))
        (add_module-Comes i suffix layers (among _ (inl refl)) h)

  parse_named_modules-Comes : All (Comes names) (parse_named_modules names)
  unfolding parse_named_modules
  parse_named_modules-Comes =
      All-sort_on (λ l. l.layer_index) (Comes names) (by_layer names [])
        (by_layer-Comes names [] (λ x k. k) tt)

  any_if-In : (s : String) (ys : List String) → any_if (str_eq s) ys ≡ true → In s ys
  any_if-In s [] h = absurd (ground arith)
  any_if-In s (y ∷ ys) h = elim (Bool-cases (str_eq s y)) [
    | inl e ↦ inl ((str_eq_iff s y).0 e)
    | inr e ↦ inr (any_if-In s ys (ground arith))
  ]

  -- A part that is not empty has an element of both lists.
  common-In :
      (P : String → Type 0) (xs ys : List String)
      → All P xs
      → 0 < length (common xs ys)
      → (s : String) × P s × In s ys
  common-In P [] ys h k = absurd (omega arith)
  common-In P (x ∷ xs) ys h k = elim (Bool-cases (any_if (str_eq x) ys)) [
    | inl e ↦ (x, h.0, any_if-In x ys e)
    | inr e ↦ common-In P xs ys h.1 (ground arith)
  ]

  layers-IsTrained :
      (targets : List String) (layers : List LayerModuleInfo)
      → All (Comes names) layers
      → All (λ c. covered c ≡ true) (map (coverage_of targets) layers)
      → All (IsTrained names targets) (map (coverage_of targets) layers)
  unfolding covered coverage_of
  layers-IsTrained targets [] comes h = tt
  layers-IsTrained targets (l ∷ layers) comes h = (
    common-In (λ s. In (some (l.layer_index, s)) names) l.module_suffixes targets comes.0
        (ground arith),
    layers-IsTrained targets layers comes.1 h.1,
  )

  -- In a report whose layers are all covered, every layer has a module of the model that is a
  -- target.
  pub compute_trainable_coverage-IsTrained :
      (targets : List String) (report : List LayerCoverage)
      → compute_trainable_coverage names targets ≡ ok report
      → All (λ c. covered c ≡ true) report
      → All (IsTrained names targets) report
  unfolding compute_trainable_coverage
  compute_trainable_coverage-IsTrained targets report e h =
      elim (Bool-cases (length (parse_named_modules names) == 0)) [
        | inl z ↦ absurd (ground arith)
        | inr z ↦
            let same = ok-injective (rw z at e) in
            subst (All (IsTrained names targets)) same (
              layers-IsTrained targets (parse_named_modules names) parse_named_modules-Comes
                (subst (All (λ c. covered c ≡ true)) (sym same) h))
      ]
