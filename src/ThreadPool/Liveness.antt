-- ===== src/ThreadPool/Liveness.antt =====
-- What the threads do on their own ends, with every task run.
use video_server.Base.{
  ℕ, zero, suc, ◌+◌, ◌-◌, ◌*◌, ◌≤◌, ◌<◌, ◌≡◌, refl, sym, ap, ◌∙◌, ◌⊎◌, inl, inr, false, List, [],
  ◌∷◌, ◌++◌, arith, length, ltb, ltb→lt, ltb→le, Bool-cases,
}
use mathlib.Core.List.{append-nil}
use video_server.ThreadPool.{
  ThreadPool, Runs, takes, finishes, breaks, waits, notifies_one, notifies_none, notifies_all,
  Reachable, runs,
}
use video_server.ThreadPool.Safety.{IsSafe, Reachable-IsSafe}

-- What the threads do from `p` on, and the count of the steps.
pub data Course (p : ThreadPool) : ℕ → ThreadPool → Type 0 where
  here : Course p 0 p
  further : {q r : ThreadPool} {k : ℕ} → Course p k q → Runs q r → Course p (suc k) r

-- No task is waiting or running, all that were added have been started, in order, and no thread has
-- anything to do; after the close, all threads have ended.
pub record IsDrained (thread_count : ℕ) (p : ThreadPool) : Type 0 where
  pub no_tasks : p.tasks ≡ []
  pub none_busy : p.busy ≡ 0
  pub none_awake : p.awake ≡ 0
  pub all_started : p.started ≡ p.added
  pub all_ended : (p.is_closed ≡ false) ⊎ (p.ended ≡ thread_count)

module _ (thread_count : ℕ) (some_threads : 0 < thread_count) where
  -- A bound on the steps that the threads can still do on their own.
  abbrev pub weight : ThreadPool → ℕ
  weight p =
      2 * length p.tasks + 2 * p.busy + 2 * p.notifying + p.awake + p.closing * (thread_count + 1)

  one_less : (n m : ℕ) → 0 < n → n * m ≡ m + (n - 1) * m
  one_less zero m h = absurd (omega arith)
  one_less (suc n) m h = let before : suc n - 1 ≡ n = omega arith in rw before (omega arith)

  Runs-lighter : (p q : ThreadPool) → IsSafe thread_count p → Runs p q → weight q + 1 ≤ weight p
  Runs-lighter p q v (takes task rest e some_awake) = omega (arith, ap length e)
  Runs-lighter p q v (finishes some_busy) = omega arith
  Runs-lighter p q v (breaks e c some_awake) = omega arith
  Runs-lighter p q v (waits e c some_awake) = omega arith
  Runs-lighter p q v (notifies_one due some_asleep) = omega arith
  Runs-lighter p q v (notifies_none due none_asleep) = omega arith
  Runs-lighter p q v (notifies_all due) =
      omega (arith, v, one_less p.closing (thread_count + 1) due)

  Course-Reachable :
      (p q : ThreadPool) (k : ℕ)
      → Reachable thread_count p
      → Course p k q
      → Reachable thread_count q
  Course-Reachable p q k r here = r
  Course-Reachable p q k r (further {q = before} {k = k'} course step) =
      runs (Course-Reachable p before k' r course) step

  -- The threads on their own do not go on for ever: with no further call and no unasked wake-up, the
  -- steps from a reachable state are at most as many as twice the tasks waiting, running and due to be
  -- notified, the threads about to look, and one more than all threads for a close that is due.
  -- The condition is a pool of at least one thread.
  pub Course-weight :
      (p q : ThreadPool) (k : ℕ) → Reachable thread_count p → Course p k q → k + weight q ≤ weight p
  Course-weight p q k r here = omega arith
  Course-weight p q k r (further {q = before} {k = k'} course step) =
      let safe =
        Reachable-IsSafe thread_count some_threads before (Course-Reachable p before k' r course) in
      omega (arith, Course-weight p before k' r course, Runs-lighter before q safe step)

  -- A thread can go on, or all is done.
  goes_on_or_rests :
      (p : ThreadPool)
      → IsSafe thread_count p
      → IsDrained thread_count p ⊎ ((q : ThreadPool) × Runs p q)
  goes_on_or_rests p v = elim (Bool-cases (ltb 0 p.busy)) [
    | inl some_busy ↦ inr (_, finishes (ltb→lt 0 p.busy some_busy))
    | inr none_busy ↦ elim (Bool-cases (ltb 0 p.awake)) [
      | inl some_awake ↦ inr (looks p.tasks refl (ltb→lt 0 p.awake some_awake))
      | inr none_awake ↦ elim (Bool-cases (ltb 0 p.closing)) [
        | inl due ↦ inr (_, notifies_all (ltb→lt 0 p.closing due))
        | inr no_close ↦ elim (Bool-cases (ltb 0 p.notifying)) [
          | inl due ↦ inr (notified (ltb→lt 0 p.notifying due))
          | inr no_notice ↦ inl (
              rests (ltb→le 0 p.busy none_busy) (ltb→le 0 p.awake none_awake)
                (ltb→le 0 p.closing no_close) (ltb→le 0 p.notifying no_notice))
        ]
      ]
    ]
  ]
    where
      looks : (tasks : List ℕ) → p.tasks ≡ tasks → 0 < p.awake → (q : ThreadPool) × Runs p q
      looks (task ∷ rest) e some_awake = (_, takes task rest e some_awake)
      looks [] e some_awake = elim (Bool-cases p.is_closed) [
        | inl closed ↦ (_, breaks e closed some_awake)
        | inr open_still ↦ (_, waits e open_still some_awake)
      ]

      notified : 0 < p.notifying → (q : ThreadPool) × Runs p q
      notified due = elim (Bool-cases (ltb 0 p.asleep)) [
        | inl some_asleep ↦ (_, notifies_one due (ltb→lt 0 p.asleep some_asleep))
        | inr none_asleep ↦ (_, notifies_none due (ground (arith, none_asleep)))
      ]

      rests : p.busy ≤ 0 → p.awake ≤ 0 → p.closing ≤ 0 → p.notifying ≤ 0 → IsDrained thread_count p
      rests b a c n =
          let empty : p.tasks ≡ [] = elim v.no_lost_wake [
            | inl none_left ↦ none_left
            | inr some_left ↦ absurd (omega arith)
          ] in
          record {
            no_tasks = empty;
            none_busy = omega arith;
            none_awake = omega arith;
            all_started =
                sym (append-nil p.started) ∙ ap (λ t. p.started ++ t) (sym empty) ∙ v.in_order;
            all_ended = elim v.closed_wakes [
              | inl open_still ↦ inl open_still
              | inr (inl none_asleep) ↦ inr (omega (arith, v))
              | inr (inr due) ↦ absurd (omega arith)
            ];
          }

  -- Steps of the threads add no task, and close nothing.
  Runs-add_none : (p q : ThreadPool) → Runs p q → (q.added ≡ p.added) × (q.is_closed ≡ p.is_closed)
  Runs-add_none p q (takes task rest e some_awake) = (refl, refl)
  Runs-add_none p q (finishes some_busy) = (refl, refl)
  Runs-add_none p q (breaks e c some_awake) = (refl, refl)
  Runs-add_none p q (waits e c some_awake) = (refl, refl)
  Runs-add_none p q (notifies_one due some_asleep) = (refl, refl)
  Runs-add_none p q (notifies_none due none_asleep) = (refl, refl)
  Runs-add_none p q (notifies_all due) = (refl, refl)

  -- Where a course from `p` ends with every task run.
  abbrev pub Drains : ThreadPool → Type 0
  Drains p =
      (k : ℕ) × ((q : ThreadPool) × (Course p k q
          × ((q.added ≡ p.added) × IsDrained thread_count q)))

  Drains-within :
      (fuel : ℕ) (p q : ThreadPool) (k : ℕ)
      → Reachable thread_count p
      → Course p k q
      → q.added ≡ p.added
      → weight q < fuel
      → Drains p
  Drains-within zero p q k r course same h = absurd (omega arith)
  Drains-within (suc fuel) p q k r course same h =
      let reached = Course-Reachable p q k r course in
      let safe = Reachable-IsSafe thread_count some_threads q reached in
      elim (goes_on_or_rests q safe) [
        | inl done ↦ (k, (q, (course, (same, done))))
        | inr (q', step) ↦
            Drains-within fuel p q' (suc k) r (further course step)
              ((Runs-add_none q q' step).0 ∙ same) (omega (arith, Runs-lighter q q' safe step))
      ]

  -- From every reachable state the threads on their own come to one where every task added so far has
  -- been started, in order, and has ended, no thread is left awake, and after a close all have ended:
  -- no deadlock, and no wake-up lost, whatever calls and steps came before.
  -- The condition is a pool of at least one thread.
  pub Reachable-Drains : (p : ThreadPool) → Reachable thread_count p → Drains p
  Reachable-Drains p r = Drains-within (weight p + 1) p p 0 r here refl (omega arith)
