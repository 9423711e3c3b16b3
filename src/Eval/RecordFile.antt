-- ===== src/Eval/RecordFile.antt =====
-- eval/runner.py: the predictions file. A text is its code points; a missing file reads as an empty
-- one. JSON of a record is a parameter of pydantic's.
pub mod RoundTrip
use model_hub.Prelude.{
  ℕ, Bool, true, false, ◌&&◌, ◌||◌, List, [], ◌∷◌, ◌++◌, map, Result, ok, ◌>>=◌, leb, ◌==◌,
  if◌then◌else◌,
}
use model_hub.Prelude.Dict.{Dict, insert}
use model_hub.Common.Errors.{Exception}
use model_hub.Eval.Records.{PredictionRecord}

abbrev pub Text : Type 0
Text = List ℕ

abbrev newline : ℕ
newline = 10

abbrev carriage_return : ℕ
carriage_return = 13

-- The line boundaries of `str.splitlines`.
abbrev pub is_boundary : ℕ → Bool
is_boundary c =
    (leb 10 c && leb c 13) || ((leb 28 c && leb c 30) || (c == 133 || (c == 8232 || c == 8233)))

-- `str.isspace` of a character
abbrev pub is_space : ℕ → Bool
is_space c =
    (leb 9 c && leb c 13)
    || ((leb 28 c && leb c 32)
        || (c == 133
            || (c == 160
                || (c == 5760
                    || ((leb 8192 c && leb c 8202)
                        || (c == 8232
                            || (c == 8233 || (c == 8239 || (c == 8287 || c == 12288)))))))))

-- `not line.strip()`
abbrev pub is_blank : Text → Bool
is_blank [] = true
is_blank (c ∷ cs) = is_space c && is_blank cs

abbrev is_nil : Text → Bool
is_nil [] = true
is_nil (c ∷ cs) = false

-- The lines of what is left of a text, after `line` of the line at hand; `returned` tells that a
-- carriage return ended the line before, with which a newline makes one boundary.
unfoldable pub split_from : Text → Bool → Text → List Text
split_from line returned [] = if is_nil line then [] else line ∷ []
split_from line returned (c ∷ cs) = elim (returned && c == newline) [
  | true ↦ split_from line false cs
  | false ↦ elim (is_boundary c) [
    | true ↦ line ∷ split_from [] (c == carriage_return) cs
    | false ↦ split_from (line ++ c ∷ []) false cs
  ]
]

unfoldable pub splitlines : Text → List Text
unfolding split_from
splitlines text = split_from [] false text

-- `"\n".join(lines)`
unfoldable pub join_lines : List Text → Text
join_lines [] = []
join_lines (line ∷ []) = line
join_lines (line ∷ (l ∷ lines)) = line ++ newline ∷ join_lines (l ∷ lines)

-- `"\n" if lines else ""`
abbrev pub final_newline : List Text → Text
final_newline [] = []
final_newline (line ∷ lines) = newline ∷ []

-- pydantic's `model_dump_json` and `model_validate_json`
pub record RecordJson : Type 0 where
  pub model_dump_json : PredictionRecord → Text
  pub model_validate_json : Text → Result Exception PredictionRecord

module _ (j : RecordJson) where
  -- The text that `_append_and_persist` writes.
  unfoldable pub persisted : List PredictionRecord → Text
  unfolding join_lines
  persisted records =
      let lines = map j.model_dump_json records in join_lines lines ++ final_newline lines

  -- The loop of `_load_existing` over the lines.
  unfoldable pub load_lines :
      List Text → Dict PredictionRecord → Result Exception (Dict PredictionRecord)
  load_lines [] existing = ok existing
  load_lines (line ∷ lines) existing = elim (is_blank line) [
    | true ↦ load_lines lines existing
    | false ↦ j.model_validate_json line >>= λ r. load_lines lines (insert r.sample_id r existing)
  ]

  unfoldable pub load_existing : Text → Result Exception (Dict PredictionRecord)
  unfolding load_lines splitlines
  load_existing file = load_lines (splitlines file) []
