-- ===== src/Server/Loop/Timers.antt =====
-- What holds between the timer, the users and the clock, under `add`, `adjust` and `GetNextTick`.
use video_server.Base.{
  ℕ, zero, suc, ◌+◌, ◌-◌, ◌^◌, ◌≤◌, ◌<◌, ◌≡◌, refl, inl, inr, Bool, true, false, not, ◌||◌, List,
  Option, none, some, arith, All, contains, ltb, ◌==◌, if◌then◌else◌, Bool-cases, Option-cases,
}
use mathlib.Core.Path.{subst}
use native.Mathlib.Nat.{le_trans}
use video_server.Base.Run.{ok, Ensures, ensures, Ensures-weaken}
use video_server.Timer.Heap.{TimerNode, HeapTimer, count, ms, add, adjust, get_next_tick}
use video_server.Timer.Heap.Order.{find, IsValid}
use video_server.Timer.Heap.Insert.{With, added, add_inserts, adjust_extends}
use video_server.Timer.Heap.Ticks.{find-node_at, node_at-find}
use video_server.Timer.Heap.Fired.{Fired, get_next_tick-Fired}
use video_server.Timer.Heap.Few.{count-le_of_ids}
use video_server.Server.Users.{Users, is_known}

abbrev pub is_node : Option TimerNode → Bool
is_node none = false
is_node (some node) = true

module _ (stray : TimerNode) (timeout : ℕ) where
  -- A timeout of a known connection, which runs out after the stray node's time and no later than one
  -- set now.
  pub record IsDue (users : Users) (clock fd : ℕ) (node : TimerNode) : Type 0 where
    pub own : node.cb ≡ fd
    pub below : fd < 2 ^ 31
    pub above : stray.expires < node.expires
    pub late : node.expires ≤ clock + ms timeout
    pub known : is_known fd users ≡ true

  pub record HasTimer (users : Users) (clock : ℕ) (t : HeapTimer) : Type 0 where
    pub valid : IsValid stray t
    pub held : (fd : ℕ) (node : TimerNode) → find stray t fd ≡ some node → IsDue users clock fd node
    pub early : stray.expires < clock + ms timeout

  -- The descriptor has a timeout, or there are none.
  abbrev pub is_timed : HeapTimer → ℕ → Bool
  is_timed t fd = not (ltb 0 timeout) || is_node (find stray t fd)

  pub HasTimer-mono :
      (users users' : Users) (clock clock' : ℕ) (t : HeapTimer)
      → ((fd : ℕ) → is_known fd users ≡ true → is_known fd users' ≡ true)
      → clock ≤ clock'
      → HasTimer users clock t
      → HasTimer users' clock' t
  HasTimer-mono users users' clock clock' t know later h = record {
    valid = h.valid;
    held = λ fd node e.
        let due = h.held fd node e in
        record {
          own = due.own;
          below = due.below;
          above = due.above;
          late = omega (arith, due.late);
          known = know fd due.known;
        };
    early = omega (arith, h.early);
  }

  count-small :
      (users : Users) (clock : ℕ) (t : HeapTimer) → HasTimer users clock t → count t ≤ 2 ^ 31
  count-small users clock t h =
      count-le_of_ids stray (2 ^ 31) t h.valid.indexed
        λ i p. let due = h.held _ _ (find-node_at stray t i h.valid.indexed p) in due.below

  With-HasTimer :
      (users : Users) (clock fd : ℕ) (node : TimerNode) (t u : HeapTimer)
      → HasTimer users clock t
      → node.id ≡ fd
      → IsDue users clock fd node
      → With stray node t u
      → HasTimer users clock u
  With-HasTimer users clock fd node t u h own due w = record {
    valid = w.valid;
    held = λ j other e. elim (Bool-cases (node.id == j)) [
      | inl same ↦
          let at : fd ≡ j = ground (arith, own, same) in
          let what : node ≡ other = ground (arith, w.others j, e, same) in
          rw (← at) (subst (IsDue users clock fd) what due)
      | inr differs ↦ h.held j other (ground (arith, w.others j, e, differs))
    ];
    early = h.early;
  }

  With-is_timed :
      (node : TimerNode) (t u : HeapTimer) (j : ℕ)
      → With stray node t u
      → is_timed u j ≡ (node.id == j || is_timed t j)
  With-is_timed node t u j w = ground (arith, w.others j)

  -- `timer_->add` in `AddClient_`
  pub add-HasTimer :
      (now fd : ℕ) (users : Users) (t : HeapTimer)
      → HasTimer users now t
      → fd < 2 ^ 31
      → is_known fd users ≡ true
      → Ensures
          (λ u. HasTimer users now u × ((j : ℕ) → is_timed u j ≡ (fd == j || is_timed t j)))
          (if ltb 0 timeout then add stray now fd timeout fd t else ok t)
  add-HasTimer now fd users t h small k = elim (Bool-cases (ltb 0 timeout)) [
    | inl timed ↦ rw timed (
        Ensures-weaken
          (add_inserts stray now fd timeout fd t h.valid (omega (arith, count-small users now t h))
            h.early)
          λ u w. (
            With-HasTimer users now fd (added now fd timeout fd) t u h refl
                (record {
                  own = refl;
                  below = small;
                  above = h.early;
                  late = omega arith;
                  known = k;
                })
                w,
            λ j. ground (arith, w.others j),
          ))
    | inr never ↦ rw never (ensures (h, λ j. ground arith))
  ]

  -- `timer_->adjust` in `ExtentTime_`
  pub adjust-HasTimer :
      (now clock fd : ℕ) (users : Users) (t : HeapTimer)
      → HasTimer users clock t
      → clock ≤ now
      → ltb 0 timeout ≡ true
      → is_timed t fd ≡ true
      → Ensures
          (λ u. HasTimer users now u × ((j : ℕ) → is_timed u j ≡ is_timed t j))
          (adjust stray now fd timeout t)
  adjust-HasTimer now clock fd users t h later timed k = elim (Option-cases (find stray t fd)) [
    | inl e ↦ absurd (ground (arith, e, k, timed))
    | inr (node, e) ↦
        let (i, inside, at, own) = node_at-find stray t fd node h.valid.indexed e in
        let due = h.held fd node e in
        let now_due = HasTimer-mono users users clock now t (λ j p. p) later h in
        Ensures-weaken
          (adjust_extends stray now fd timeout t node h.valid e (omega (arith, due.late)))
          λ u w. (
            With-HasTimer users now fd _ t u now_due own
                (record {
                  own = due.own;
                  below = due.below;
                  above = now_due.early;
                  late = omega arith;
                  known = due.known;
                })
                w,
            λ j. ground (arith, w.others j, own, e),
          )
  ]

  -- What `GetNextTick` leaves: known callbacks, and timeouts that are kept or have run.
  pub record Expired (users : Users) (clock : ℕ) (t : HeapTimer) (fds : List ℕ) (u : HeapTimer)
      : Type 0 where
    pub timer : HasTimer users clock u
    pub known : All (λ fd. is_known fd users ≡ true) fds
    pub rest : (fd : ℕ) → is_timed t fd ≡ true → (is_timed u fd || contains fd fds) ≡ true
    pub waiting :
        (fd : ℕ) (node : TimerNode) → find stray u fd ≡ some node → clock + 1000000 ≤ node.expires

  pub get_next_tick-Expired :
      (readings : ℕ → ℕ) (clock : ℕ) (users : Users) (t : HeapTimer)
      → HasTimer users clock t
      → clock ≤ readings 0
      → ((i : ℕ) → readings i ≤ readings (i + 1))
      → Ensures (λ r. Expired users (readings 0) t r.0 r.2) (get_next_tick stray readings 0 t)
  get_next_tick-Expired readings clock users t h later mono =
      let now_due = HasTimer-mono users users clock (readings 0) t (λ j p. p) later h in
      Ensures-weaken
        (get_next_tick-Fired stray (λ fd. is_known fd users ≡ true) readings 0 t mono h.valid
          (λ fd node e. let due = h.held fd node e in due.above)
          (λ fd node e. let due = h.held fd node e in rw due.own due.known))
        λ r (k, f, w). record {
          timer = record {
            valid = f.valid;
            held = λ fd node e. now_due.held fd node (f.old fd node e);
            early = now_due.early;
          };
          known = f.known;
          rest = λ fd k. rest fd k f;
          waiting = λ fd node e. omega (arith, w.kept fd node e, after_first (k - 1));
        }
    where
      after_first : (i : ℕ) → readings 0 ≤ readings i
      after_first zero = omega arith
      after_first (suc i) =
          let same : suc i ≡ i + 1 = omega arith in rw same (le_trans (after_first i) (mono i))

      rest :
          (fd : ℕ) {fds : List ℕ} {k : ℕ} {u : HeapTimer}
          → is_timed t fd ≡ true
          → Fired stray (λ j. is_known j users ≡ true) t (fds, k, u)
          → (is_timed u fd || contains fd fds) ≡ true
      rest fd k f = elim (Option-cases (find stray t fd)) [
        | inl e ↦ ground (arith, e, k)
        | inr (node, e) ↦ ground (arith, h.held fd node e, f.rest fd node e)
      ]
