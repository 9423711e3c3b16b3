-- ===== src/Eval/RecordFile/RoundTrip.antt =====
-- eval/runner.py: records that are persisted are loaded again.
use model_hub.Prelude.{◌≡◌, ◌∙◌, refl, sym, ap, false, List, [], ◌∷◌, ◌++◌, map, ok, All}
use mathlib.Core.List.{append_assoc, append-nil}
use model_hub.Prelude.Dict.{Dict, insert}
use model_hub.Eval.Records.{PredictionRecord}
use model_hub.Eval.RecordFile.{
  Text, is_boundary, is_blank, split_from, splitlines, join_lines, final_newline, RecordJson,
  persisted, load_lines, load_existing,
}

-- No character of the text is a line boundary.
abbrev pub IsOneLine : Text → Type 0
IsOneLine text = All (λ c. is_boundary c ≡ false) text

split_from_line :
    (line xs rest : Text)
    → IsOneLine xs
    → split_from line false (xs ++ 10 ∷ rest) ≡ (line ++ xs) ∷ split_from [] false rest
unfolding split_from
split_from_line line [] rest h =
    ap (λ (l : Text). l ∷ split_from [] false rest) (sym (append-nil line))
split_from_line line (x ∷ xs) rest h =
    rw (h.0, split_from)
      (split_from_line (line ++ x ∷ []) xs rest h.1 ∙ rw (append_assoc line (x ∷ []) xs) refl)

-- The lines, each with a newline after it.
ended : List Text → Text
ended [] = []
ended (line ∷ lines) = line ++ 10 ∷ ended lines

join_lines-ended : (lines : List Text) → join_lines lines ++ final_newline lines ≡ ended lines
unfolding join_lines ended
join_lines-ended [] = refl
join_lines-ended (line ∷ []) = refl
join_lines-ended (line ∷ (l ∷ lines)) =
    append_assoc line (10 ∷ join_lines (l ∷ lines)) (10 ∷ [])
    ∙ ap (λ (rest : Text). line ++ 10 ∷ rest) (join_lines-ended (l ∷ lines))

splitlines-ended :
    (lines : List Text) → All IsOneLine lines → split_from [] false (ended lines) ≡ lines
unfolding ended split_from
splitlines-ended [] h = refl
splitlines-ended (line ∷ lines) h =
    split_from_line [] line (ended lines) h.0
    ∙ ap (λ (ls : List Text). line ∷ ls) (splitlines-ended lines h.1)

-- `existing[record.sample_id] = record` for each record.
abbrev pub index_records : List PredictionRecord → Dict PredictionRecord → Dict PredictionRecord
index_records [] existing = existing
index_records (r ∷ records) existing = index_records records (insert r.sample_id r existing)

module _ (j : RecordJson) where
  -- The record's JSON is read back as the record, is not blank and has no line boundary.
  abbrev pub IsPersistable : PredictionRecord → Type 0
  IsPersistable r =
      (j.model_validate_json (j.model_dump_json r) ≡ ok r)
      × (is_blank (j.model_dump_json r) ≡ false)
      × IsOneLine (j.model_dump_json r)

  load_lines-map :
      (records : List PredictionRecord) (existing : Dict PredictionRecord)
      → All IsPersistable records
      → load_lines j (map j.model_dump_json records) existing ≡ ok (index_records records existing)
  unfolding load_lines
  load_lines-map [] existing h = refl
  load_lines-map (r ∷ records) existing h =
      rw (h.0.1, h.0.0, load_lines) (load_lines-map records (insert r.sample_id r existing) h.1)

  one_lines :
      (records : List PredictionRecord)
      → All IsPersistable records
      → All IsOneLine (map j.model_dump_json records)
  one_lines [] h = tt
  one_lines (r ∷ records) h = (h.0.2, one_lines records h.1)

  -- Persistable records are loaded from the file that persists them, the last one of each id.
  pub load_existing-persisted :
      (records : List PredictionRecord)
      → All IsPersistable records
      → load_existing j (persisted j records) ≡ ok (index_records records [])
  unfolding load_existing persisted splitlines
  load_existing-persisted records h =
      rw
        (
          join_lines-ended (map j.model_dump_json records),
          splitlines-ended (map j.model_dump_json records) (one_lines records h),
        )
        (load_lines-map records [] h)
