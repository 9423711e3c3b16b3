-- ===== src/Scripts/NightQueue/Order.antt =====
-- scripts/night_queue.py: the order of the queue, and when a task completes.
use model_hub.Prelude.{
  ℕ, suc, ◌≤◌, ◌≡◌, ◌↔◌, inl, inr, refl, ◌∙◌, ◌<◌, Bool, true, false, Option, none, some, List, [],
  ◌∷◌, ◌++◌, map, leb, ◌==◌, arith, Bool-cases, leb→le, String,
}
use model_hub.Prelude.SortOn.{sort_on-IsAscending, filter_if-sort_on}
use model_hub.Prelude.Sorting.{IsAscending, LowerBound}
use model_hub.Prelude.Counting.{filter_if}
use model_hub.Common.Capability.{pass, fail, skip, warn, is_available}
use model_hub.Scripts.NightQueue.{
  NightTask, TaskRiskLevel, low, medium, high, risk_order, build_night_queue, TaskRun, Ending,
  returns, raises_timeout, raises, keyboard_interrupt, ends_after, hangs, completed, TaskResult,
  outcome, run_task_with_watchdog, run_watched, result_of, system_exit, SmokeRun, probe_ends,
  probe_hangs,
}

abbrev pub is_low : NightTask → Bool
is_low t = elim t.risk_level [ low ↦ true | medium ↦ false | high ↦ false ]

abbrev pub is_medium : NightTask → Bool
is_medium t = elim t.risk_level [ low ↦ false | medium ↦ true | high ↦ false ]

abbrev pub is_high : NightTask → Bool
is_high t = elim t.risk_level [ low ↦ false | medium ↦ false | high ↦ true ]

abbrev task_rank : NightTask → ℕ
task_rank t = risk_order t.risk_level

ranked : ℕ → List NightTask → List NightTask
ranked k tasks = filter_if (λ t. task_rank t == k) tasks

none_below :
    (b k : ℕ) (ys : List NightTask) → LowerBound b (map task_rank ys) → k < b → ranked k ys ≡ []
unfolding ranked
none_below b k [] h l = refl
none_below b k (y ∷ ys) h l = ground (arith, none_below b k ys h.1 l)

at_level :
    (y : NightTask) (ys : List NightTask) (l : TaskRiskLevel)
    → y.risk_level ≡ l
    → ys ≡ ranked 0 ys ++ (ranked 1 ys ++ ranked 2 ys)
    → ((k : ℕ) → k < task_rank y → ranked k ys ≡ [])
    → y ∷ ys ≡ ranked 0 (y ∷ ys) ++ (ranked 1 (y ∷ ys) ++ ranked 2 (y ∷ ys))
unfolding ranked risk_order
at_level y ys low e parts none_ranked = ground (arith, parts)
at_level y ys medium e parts none_ranked = ground (arith, parts, none_ranked 0)
at_level y ys high e parts none_ranked = ground (arith, parts, none_ranked 0, none_ranked 1)

-- A list in ascending order of risk is its low, medium and high tasks one after the other.
three_parts :
    (ys : List NightTask)
    → IsAscending (map task_rank ys)
    → ys ≡ ranked 0 ys ++ (ranked 1 ys ++ ranked 2 ys)
unfolding ranked risk_order
three_parts [] h = refl
three_parts (y ∷ ys) h =
    at_level y ys y.risk_level refl (three_parts ys h.1)
      (λ k l. none_below (task_rank y) k ys h.0 l)

ranked_low : (tasks : List NightTask) → ranked 0 tasks ≡ filter_if is_low tasks
unfolding ranked risk_order
ranked_low [] = refl
ranked_low (t ∷ tasks) = ground (arith, ranked_low tasks)

ranked_medium : (tasks : List NightTask) → ranked 1 tasks ≡ filter_if is_medium tasks
unfolding ranked risk_order
ranked_medium [] = refl
ranked_medium (t ∷ tasks) = ground (arith, ranked_medium tasks)

ranked_high : (tasks : List NightTask) → ranked 2 tasks ≡ filter_if is_high tasks
unfolding ranked risk_order
ranked_high [] = refl
ranked_high (t ∷ tasks) = ground (arith, ranked_high tasks)

-- The queue is the tasks of low risk, then those of medium risk, then those of high risk, each in
-- the order in which they were given.
pub build_night_queue_stable :
    (tasks : List NightTask)
    → build_night_queue tasks
      ≡ filter_if is_low tasks ++ (filter_if is_medium tasks ++ filter_if is_high tasks)
unfolding build_night_queue ranked
build_night_queue_stable tasks =
    three_parts (build_night_queue tasks) (sort_on-IsAscending task_rank tasks)
    ∙ rw
        (
          filter_if-sort_on task_rank 0 tasks,
          filter_if-sort_on task_rank 1 tasks,
          filter_if-sort_on task_rank 2 tasks,
          ranked_low tasks,
          ranked_medium tasks,
          ranked_high tasks,
        )
        refl

abbrev SmokePasses : Option SmokeRun → Type 0
SmokePasses none = Unit
SmokePasses (some r) = r ≡ probe_ends (returns pass)

abbrev ReturnsInTime : TaskRun → Option ℕ → Type 0
ReturnsInTime (ends_after d e) none = e ≡ returns tt
ReturnsInTime (ends_after d e) (some timeout) = (d ≤ timeout) × (e ≡ returns tt)
ReturnsInTime hangs timeout = ⊥

-- The smoke test, if there is one, returned PASS, and the task's code returns, within the
-- watchdog's timeout if there is one.
abbrev pub Completes : NightTask → Type 0
Completes t = SmokePasses t.smoke_test × ReturnsInTime t.run t.watchdog_timeout_s

abbrev pub IsCompleted : TaskResult → Type 0
IsCompleted (outcome o readings) = o.status ≡ completed
IsCompleted _ = ⊥

module _ (id : String) (timeout : Option ℕ) (n s e : ℕ) where
  result_of-IsCompleted :
      (ending : Ending (Unit {0}))
      → IsCompleted (result_of id timeout n s e ending) ↔ (ending ≡ returns tt)
  result_of-IsCompleted (returns u) = (λ h. refl, λ h. refl)
  result_of-IsCompleted raises_timeout = (λ h. cc, λ h. cc)
  result_of-IsCompleted (raises text) = (λ h. cc, λ h. cc)
  result_of-IsCompleted system_exit = (λ h. elim h [ ], λ h. cc)
  result_of-IsCompleted keyboard_interrupt = (λ h. cc, λ h. cc)

module _ (t : NightTask) (now_fn : ℕ → ℕ) (readings : ℕ) where
  run_watched-IsCompleted :
      (run : TaskRun) (timeout : Option ℕ)
      → IsCompleted
          (run_watched (record t { run = run; watchdog_timeout_s = timeout }) now_fn readings)
        ↔ ReturnsInTime run timeout
  run_watched-IsCompleted (ends_after d e) none =
      result_of-IsCompleted t.task_id none (suc (suc readings)) (now_fn readings)
        (now_fn (suc readings)) e
  run_watched-IsCompleted (ends_after d e) (some timeout) = elim (Bool-cases (leb d timeout)) [
    | inl h ↦
        let by_ending =
          result_of-IsCompleted t.task_id (some timeout) (suc (suc readings)) (now_fn readings)
            (now_fn (suc readings)) e in
        rw h (λ c. (leb→le d timeout h, by_ending.0 c), λ p. by_ending.1 p.1)
    | inr h ↦ rw h (λ c. cc, λ p. absurd (ground arith))
  ]
  run_watched-IsCompleted hangs none = (λ h. h, λ h. h)
  run_watched-IsCompleted hangs (some timeout) = (λ h. cc, λ h. elim h [ ])

module _ (t : NightTask) (now_fn : ℕ → ℕ) (readings : ℕ) where
  Completes-by_smoke_test :
      (smoke : Option SmokeRun)
      → IsCompleted (run_task_with_watchdog (record t { smoke_test = smoke }) now_fn readings)
        ↔ Completes (record t { smoke_test = smoke })
  unfolding run_task_with_watchdog is_available
  Completes-by_smoke_test none =
      let watched = run_watched-IsCompleted t now_fn readings t.run t.watchdog_timeout_s in
      (λ c. (tt, watched.0 c), λ c. watched.1 c.1)
  Completes-by_smoke_test (some (probe_ends (returns pass))) =
      let watched = run_watched-IsCompleted t now_fn readings t.run t.watchdog_timeout_s in
      (λ c. (refl, watched.0 c), λ c. watched.1 c.1)
  Completes-by_smoke_test (some (probe_ends (returns fail))) = (λ c. cc, λ c. cc c.0)
  Completes-by_smoke_test (some (probe_ends (returns skip))) = (λ c. cc, λ c. cc c.0)
  Completes-by_smoke_test (some (probe_ends (returns warn))) = (λ c. cc, λ c. cc c.0)
  Completes-by_smoke_test (some (probe_ends raises_timeout)) = (λ c. cc, λ c. cc c.0)
  Completes-by_smoke_test (some (probe_ends (raises text))) = (λ c. cc, λ c. cc c.0)
  Completes-by_smoke_test (some (probe_ends system_exit)) = (λ c. elim c [ ], λ c. cc c.0)
  Completes-by_smoke_test (some (probe_ends keyboard_interrupt)) = (λ c. elim c [ ], λ c. cc c.0)
  Completes-by_smoke_test (some probe_hangs) = (λ c. elim c [ ], λ c. cc c.0)

-- A task is COMPLETED exactly when its smoke test, if any, returns PASS and its code returns,
-- within the watchdog's timeout if it has one; the readings of the clock play no part.
pub run_task-Completes :
    (t : NightTask) (now_fn : ℕ → ℕ) (readings : ℕ)
    → IsCompleted (run_task_with_watchdog t now_fn readings) ↔ Completes t
run_task-Completes t now_fn readings = Completes-by_smoke_test t now_fn readings t.smoke_test
