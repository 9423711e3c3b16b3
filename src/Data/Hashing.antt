-- ===== src/Data/Hashing.antt =====
-- data/hashing.py. The regular expression library, `str.strip`, `str.lower` and SHA-256 are
-- parameters; `sorted` goes by the order of the code points.
use model_hub.Prelude.{Bool, true, false, List, [], ◌∷◌, map, String, ◌<>◌, if◌then◌else◌}
use Prim.Native.Nat.{Ordering}
use Prim.Native.String.{compare}
use model_hub.Data.Schema.{NormalizedSample}

pub record TextLibrary : Type 0 where
  -- `re.sub(r"\s+", " ", text)`
  pub collapse_whitespace : String → String
  pub strip : String → String
  pub lower : String → String
  -- `hashlib.sha256(text.encode("utf-8")).hexdigest()`
  pub sha256_hex : String → String

-- `s <= t`
pub text_leb : String → String → Bool
text_leb s t = elim (compare s t) [ Ordering.gt ↦ false | _ ↦ true ]

module _ {A : Type 0} (key : A → String) where
  insert_by : A → List A → List A
  unfolding text_leb
  insert_by a [] = a ∷ []
  insert_by a (x ∷ xs) = if text_leb (key a) (key x) then a ∷ (x ∷ xs) else x ∷ insert_by a xs

  -- `sorted(xs, key=key)`
  unfoldable pub sorted_by : List A → List A
  unfolding insert_by
  sorted_by [] = []
  sorted_by (x ∷ xs) = insert_by x (sorted_by xs)

-- `separator.join(parts)`
unfoldable pub join : String → List String → String
join separator [] = ""
join separator (p ∷ []) = p
join separator (p ∷ (q ∷ ps)) = p <> (separator <> join separator (q ∷ ps))

module _ (t : TextLibrary) where
  unfoldable pub normalize_text_for_hash : String → String
  normalize_text_for_hash text = t.lower (t.strip (t.collapse_whitespace text))

  unfoldable pub question_hash : String → String
  unfolding normalize_text_for_hash
  question_hash question = t.sha256_hex (normalize_text_for_hash question)

  unfoldable pub sql_hash : String → String
  unfolding normalize_text_for_hash
  sql_hash sql = t.sha256_hex (normalize_text_for_hash sql)

  sample_part : NormalizedSample → String
  unfolding question_hash sql_hash
  sample_part s =
      s.sample_id
      <> ("\u{1f}"
          <> (s.db_id
              <> ("\u{1f}" <> (question_hash s.question <> ("\u{1f}" <> sql_hash s.gold_sql)))))

  unfoldable pub dataset_content_hash : List NormalizedSample → String
  unfolding sample_part sorted_by join
  dataset_content_hash samples =
      "sha256:"
      <> t.sha256_hex (join "\u{1e}" (map sample_part (sorted_by (λ s. s.sample_id) samples)))
