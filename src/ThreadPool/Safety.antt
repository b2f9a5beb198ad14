-- ===== src/ThreadPool/Safety.antt =====
-- No task is lost or run out of order, and no wake-up is missed.
use mathlib.Core.List.{append_assoc}
use video_server.Base.{
  ℕ, ◌+◌, ◌<◌, ◌≡◌, refl, sym, ap, ◌∙◌, ◌⊎◌, inl, inr, true, false, [], ◌∷◌, ◌++◌, arith, length,
}
use video_server.ThreadPool.{
  ThreadPool, Runs, takes, finishes, breaks, waits, notifies_one, notifies_none, notifies_all,
  Happens, adds, closes, wakes, Reachable, starts, runs, happens,
}

pub record IsSafe (thread_count : ℕ) (p : ThreadPool) : Type 0 where
  pub threads : p.awake + p.busy + p.asleep + p.ended ≡ thread_count
  pub in_order : p.started ++ p.tasks ≡ p.added
  -- A task in the queue has a thread or a notification on its way.
  pub no_lost_wake : (p.tasks ≡ []) ⊎ (0 < p.awake + p.busy + p.notifying)
  -- Threads end only after the close, with the queue empty.
  pub ends_closed : (p.ended ≡ 0) ⊎ ((p.is_closed ≡ true) × (p.tasks ≡ []))
  -- After the close no thread waits but for the notification.
  pub closed_wakes : (p.is_closed ≡ false) ⊎ ((p.asleep ≡ 0) ⊎ (0 < p.closing))

module _ (thread_count : ℕ) (some_threads : 0 < thread_count) where
  Runs-keep : (p q : ThreadPool) → IsSafe thread_count p → Runs p q → IsSafe thread_count q
  Runs-keep p q v (takes task rest e some_awake) = record {
    threads = omega (arith, v);
    in_order =
        append_assoc p.started (task ∷ []) rest ∙ ap (λ t. p.started ++ t) (sym e) ∙ v.in_order;
    no_lost_wake = inr (omega arith);
    ends_closed = elim v.ends_closed [
      | inl none_ended ↦ inl none_ended
      | inr done ↦ absurd (omega (arith, ap length e, ap length done.1))
    ];
    closed_wakes = v.closed_wakes;
  }
  Runs-keep p q v (finishes some_busy) = record {
    threads = omega (arith, v);
    in_order = v.in_order;
    no_lost_wake = inr (omega arith);
    ends_closed = v.ends_closed;
    closed_wakes = v.closed_wakes;
  }
  Runs-keep p q v (breaks e c some_awake) = record {
    threads = omega (arith, v);
    in_order = v.in_order;
    no_lost_wake = inl e;
    ends_closed = inr (c, e);
    closed_wakes = v.closed_wakes;
  }
  Runs-keep p q v (waits e c some_awake) = record {
    threads = omega (arith, v);
    in_order = v.in_order;
    no_lost_wake = inl e;
    ends_closed = v.ends_closed;
    closed_wakes = inl c;
  }
  Runs-keep p q v (notifies_one due some_asleep) = record {
    threads = omega (arith, v);
    in_order = v.in_order;
    no_lost_wake = inr (omega arith);
    ends_closed = v.ends_closed;
    closed_wakes = elim v.closed_wakes [
      | inl open_still ↦ inl open_still
      | inr (inl none_asleep) ↦ absurd (omega arith)
      | inr (inr due_all) ↦ inr (inr due_all)
    ];
  }
  Runs-keep p q v (notifies_none due none_asleep) = record {
    threads = v.threads;
    in_order = v.in_order;
    no_lost_wake = elim v.ends_closed [
      | inl none_ended ↦ inr (omega (arith, v))
      | inr done ↦ inl done.1
    ];
    ends_closed = v.ends_closed;
    closed_wakes = v.closed_wakes;
  }
  Runs-keep p q v (notifies_all due) = record {
    threads = omega (arith, v);
    in_order = v.in_order;
    no_lost_wake = elim v.no_lost_wake [
      | inl empty ↦ inl empty
      | inr some_left ↦ inr (omega arith)
    ];
    ends_closed = v.ends_closed;
    closed_wakes = inr (inl refl);
  }

  Happens-keep : (p q : ThreadPool) → IsSafe thread_count p → Happens p q → IsSafe thread_count q
  Happens-keep p q v (adds task c) = record {
    threads = v.threads;
    in_order =
        sym (append_assoc p.started p.tasks (task ∷ [])) ∙ ap (λ t. t ++ task ∷ []) v.in_order;
    no_lost_wake = inr (omega arith);
    ends_closed = elim v.ends_closed [
      | inl none_ended ↦ inl none_ended
      | inr done ↦ absurd (ground (arith, c, done.0))
    ];
    closed_wakes = inl c;
  }
  Happens-keep p q v (closes c) = record {
    threads = v.threads;
    in_order = v.in_order;
    no_lost_wake = v.no_lost_wake;
    ends_closed = elim v.ends_closed [
      | inl none_ended ↦ inl none_ended
      | inr done ↦ absurd (ground (arith, c, done.0))
    ];
    closed_wakes = inr (inr (omega arith));
  }
  Happens-keep p q v (wakes some_asleep) = record {
    threads = omega (arith, v);
    in_order = v.in_order;
    no_lost_wake = inr (omega arith);
    ends_closed = v.ends_closed;
    closed_wakes = elim v.closed_wakes [
      | inl open_still ↦ inl open_still
      | inr (inl none_asleep) ↦ absurd (omega arith)
      | inr (inr due_all) ↦ inr (inr due_all)
    ];
  }

  -- However the calls and the threads' steps come between each other: no thread is lost, the tasks
  -- started and then those in the queue are the tasks added, each once and in order; while a task is
  -- in the queue a thread is about to look at it, runs another, or a notification is due; threads end
  -- only after the close with an empty queue, and after the close none waits but for its notification.
  -- The condition is a pool of at least one thread.
  pub Reachable-IsSafe : (p : ThreadPool) → Reachable thread_count p → IsSafe thread_count p
  Reachable-IsSafe p starts = record {
    threads = omega arith;
    in_order = refl;
    no_lost_wake = inl refl;
    ends_closed = inl refl;
    closed_wakes = inl refl;
  }
  Reachable-IsSafe p (runs {p = before} r s) = Runs-keep before p (Reachable-IsSafe before r) s
  Reachable-IsSafe p (happens {p = before} r s) =
      Happens-keep before p (Reachable-IsSafe before r) s
