-- ===== src/Data/Schema.antt =====
-- data/schema.py.
use model_hub.Prelude.{Bool, true, false, Option, String}

pub data Source : Type 0 where
  bird spider minidev_select minidev_crud : Source

pub data Split : Type 0 where
  train dev test : Split

pub data Dialect : Type 0 where
  sqlite mysql postgresql : Dialect

pub record NormalizedSample : Type 0 where
  pub sample_id : String
  pub db_id : String
  pub question : String
  pub evidence : Option String
  pub gold_sql : String
  pub difficulty : Option String
  pub source : Source
  pub split : Split
  pub dialect : Dialect

abbrev pub is_crud : Source → Bool
is_crud Source.minidev_crud = true
is_crud _ = false
