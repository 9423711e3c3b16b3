-- ===== src/Eval/GoldCache/RoundTrip.antt =====
-- eval/gold_cache.py: what the cache gives back.
use model_hub.Prelude.{
  ◌≡◌, ◌⊎◌, ◌∙◌, sym, ap, inl, inr, Result, ok, ◌>>=◌, In, All, All-In, refl, Bool, true, false,
  Option, none, some, List, [], ◌∷◌, map, String, str_eq, str_eq_iff, str_eq_refl, if◌then◌else◌,
  Bool-cases,
}
use mathlib.Core.Path.{subst}
use model_hub.Prelude.Dict.{lookup, insert, lookup-insert}
use model_hub.Common.Errors.{ErrorCode, Exception}
use model_hub.Compare.Values.{Doubles}
use model_hub.Compare.Comparator.{ResultSet}
use model_hub.Data.Hashing.{TextLibrary, sql_hash, normalize_text_for_hash}
use model_hub.SqlExec.Outcomes.{ExecOutcome}
use model_hub.Eval.GoldCache.{
  db_file_hash, cache_key, Json, Cache, read_cached, write_cached, get_or_execute, dump_result,
  load_result, load_cached, payload_of, keeps_result, by_cached, execute_and_write, after_write,
}

-- A request for the outcome of the gold SQL on a database file.
pub record GoldRequest : Type 0 where
  pub db_id : String
  pub gold_sql : String
  pub content : String

module _ (d : Doubles) (j : Json d) (t : TextLibrary) where
  load-dump_result : (r : Option (ResultSet d)) → load_result d (dump_result d r) ≡ r
  load-dump_result none = refl
  load-dump_result (some r) = refl

  abbrev pub key_of : GoldRequest → String
  key_of r = cache_key t r.db_id r.gold_sql (db_file_hash t r.content)

  -- Every cell of the outcome's result is one that JSON keeps.
  abbrev pub IsKept : ExecOutcome d → Type 0
  IsKept o = keeps_result d (dump_result d o.result) ≡ true

  -- What is written of an outcome whose cells JSON keeps, when the file is stored, is read back under
  -- its key, every field of it, and other keys are not touched.
  pub read_cached-write_cached :
      (cache : Cache d j) (key : String) (outcome : ExecOutcome d)
      → IsKept outcome
      → (cache' : Cache d j) × (write_cached d j cache key outcome (ok tt) ≡ ok cache')
        × ((k : String)
            → read_cached d j cache' k
              ≡ (if str_eq k key then ok (some outcome) else read_cached d j cache k))
  unfolding read_cached write_cached
  read_cached-write_cached cache key outcome kept =
      let (text, dumped, loaded) = j.loads-dumps (payload_of d j outcome) kept in
      let back : load_cached d j (some text) ≡ ok (some outcome) =
        rw (loaded, load-dump_result outcome.result) refl in
      (
        insert key text cache,
        rw dumped refl,
        λ k.
            ap (load_cached d j) (lookup-insert k key text cache)
            ∙ by_test text back k (str_eq k key),
      )
    where
      by_test :
          (text : j.Text)
          → load_cached d j (some text) ≡ ok (some outcome)
          → (k : String) (b : Bool)
          → load_cached d j (if b then some text else lookup k cache)
            ≡ (if b then ok (some outcome) else load_cached d j (lookup k cache))
      by_test text back k true = back
      by_test text back k false = refl

  module _ (run : GoldRequest → ExecOutcome d) where
    -- A request answered by the cache, or by an execution whose outcome is then stored.
    abbrev pub serve : GoldRequest → Cache d j → Result Exception (ExecOutcome d) × Cache d j
    serve r cache =
        get_or_execute d j t r.db_id r.gold_sql (some r.content) (ok (run r)) (ok tt) cache

    pub serve_all : List GoldRequest → Cache d j → List (Result Exception (ExecOutcome d))
    serve_all [] cache = []
    serve_all (r ∷ requests) cache =
        let (o, cache') = serve r cache in o ∷ serve_all requests cache'

    -- What a comparison reads of an outcome: its code and its result.
    abbrev pub seen : ExecOutcome d → ErrorCode × Option (ResultSet d)
    seen o = (o.code, o.result)

    abbrev pub answer :
        Result Exception (ExecOutcome d) → Result Exception (ErrorCode × Option (ResultSet d))
    answer r = r >>= λ o. ok (seen o)

    serve_hit :
        (r : GoldRequest) (cache : Cache d j) (o : ExecOutcome d)
        → read_cached d j cache (key_of r) ≡ ok (some o)
        → serve r cache ≡ (ok o, cache)
    unfolding get_or_execute by_cached
    serve_hit r cache o h = rw (h, get_or_execute) refl

    serve_miss :
        (r : GoldRequest) (cache cache' : Cache d j)
        → read_cached d j cache (key_of r) ≡ ok none
        → write_cached d j cache (key_of r) (run r) (ok tt) ≡ ok cache'
        → serve r cache ≡ (ok (run r), cache')
    unfolding get_or_execute by_cached execute_and_write after_write
    serve_miss r cache cache' h w = rw (h, get_or_execute, w) refl

    module _ (requests : List GoldRequest)
        (kept : (r : GoldRequest) → In r requests → IsKept (run r))
        (same : (r s : GoldRequest)
          → In r requests
          → In s requests
          → key_of r ≡ key_of s
          → seen (run r) ≡ seen (run s)) where
      -- Under the key of a request there is nothing, or an outcome that is seen as its own.
      abbrev IsSoundRead : GoldRequest → Result Exception (Option (ExecOutcome d)) → Type 0
      IsSoundRead r read =
          (read ≡ ok none) ⊎ ((o : ExecOutcome d) × (read ≡ ok (some o)) × (seen o ≡ seen (run r)))

      abbrev IsSoundFor : Cache d j → GoldRequest → Type 0
      IsSoundFor cache r = IsSoundRead r (read_cached d j cache (key_of r))

      abbrev IsSound : Cache d j → Type 0
      IsSound cache = (r : GoldRequest) → In r requests → IsSoundFor cache r

      after_miss :
          (r s : GoldRequest) (cache cache' : Cache d j)
          → In r requests
          → In s requests
          → ((k : String)
              → read_cached d j cache' k
                ≡ (if str_eq k (key_of r) then ok (some (run r)) else read_cached d j cache k))
          → IsSoundFor cache s
          → IsSoundFor cache' s
      after_miss r s cache cache' there among reads before =
          elim (Bool-cases (str_eq (key_of s) (key_of r))) [
            | inl e ↦
                let k = (str_eq_iff (key_of s) (key_of r)).0 e in
                inr (run r, rw e at (reads (key_of s)), same r s there among (sym k))
            | inr e ↦ subst (IsSoundRead s) (sym (rw e at (reads (key_of s)))) before
          ]

      -- A request is answered as its execution would be, and the cache stays sound.
      serve_step :
          (r : GoldRequest) (cache : Cache d j)
          → In r requests
          → IsSound cache
          → (answer (serve r cache).0 ≡ ok (seen (run r))) × IsSound (serve r cache).1
      serve_step r cache there sound = elim (sound r there) [
        | inr (o, hit, e) ↦ rw (serve_hit r cache o hit) (ap ok e, sound)
        | inl miss ↦
            let (cache', wrote, reads) =
              read_cached-write_cached cache (key_of r) (run r) (kept r there) in
            rw (serve_miss r cache cache' miss wrote)
              (refl, λ s among. after_miss r s cache cache' there among reads (sound s among))
      ]

      serve_all-seen :
          (rest : List GoldRequest) (cache : Cache d j)
          → All (λ r. In r requests) rest
          → IsSound cache
          → map answer (serve_all rest cache) ≡ map (λ r. ok (seen (run r))) rest
      unfolding serve_all
      serve_all-seen [] cache among sound = refl
      serve_all-seen (r ∷ rest) cache among sound =
          let (answered, still) = serve_step r cache among.0 sound in
          let later = serve_all-seen rest (serve r cache).1 among.1 still in cc

    -- Requests answered through a cache that starts empty, each file being stored, get the code and
    -- the result that executing each of them would give, when JSON keeps the cells of their results
    -- and requests among them with the same key have outcomes of the same code and result.
    pub serve_all-uncached :
        (requests : List GoldRequest)
        → ((r : GoldRequest) → In r requests → IsKept (run r))
        → ((r s : GoldRequest)
            → In r requests
            → In s requests
            → key_of r ≡ key_of s
            → seen (run r) ≡ seen (run s))
        → map answer (serve_all requests []) ≡ map (λ r. ok (seen (run r))) requests
    unfolding read_cached
    serve_all-uncached requests kept same =
        serve_all-seen requests kept same requests [] (All-In requests requests (λ a h. h))
          (λ r there. inl refl)

    same_key :
        (r s : GoldRequest)
        → r.db_id ≡ s.db_id
        → r.content ≡ s.content
        → normalize_text_for_hash t r.gold_sql ≡ normalize_text_for_hash t s.gold_sql
        → key_of s ≡ key_of r
    unfolding cache_key sql_hash db_file_hash
    same_key r s db file text = cc

    -- After a request on a database file that was answered and stored, and whose cells JSON keeps, a
    -- request on the same file whose SQL is the same up to case and white space is answered with the
    -- outcome of the first, whatever its own would be.
    pub serve_first_outcome :
        (r s : GoldRequest)
        → IsKept (run r)
        → r.db_id ≡ s.db_id
        → r.content ≡ s.content
        → normalize_text_for_hash t r.gold_sql ≡ normalize_text_for_hash t s.gold_sql
        → (serve s (serve r []).1).0 ≡ ok (run r)
    serve_first_outcome r s kept db file text =
        let (cache, wrote, reads) = read_cached-write_cached [] (key_of r) (run r) kept in
        let k = same_key r s db file text in
        let there : read_cached d j cache (key_of s) ≡ ok (some (run r)) =
          reads (key_of s) ∙ rw (k, str_eq_refl (key_of r)) refl in
        rw
          (
            serve_miss r [] cache (unfold read_cached in refl) wrote,
            serve_hit s cache (run r) there,
          )
          refl
