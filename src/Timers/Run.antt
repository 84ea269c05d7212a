-- ===== src/Timers/Run.antt =====
-- The loop that runs the timers that are due.
use mtprotor.Base.{
  ℕ, zero, suc, ◌/◌, ◌≤◌, ◌<◌, ◌≡◌, ◌≢◌, refl, ◌∙◌, arith, true, false, not, ◌&&◌, Option, none,
  some, ltb, leb, ◌==◌, Bool-cases, inl, inr,
}
use mtprotor.Timers.{
  Timers, remove_event_timer, waits, until_next, run_loop, alarm, thread_run_timers,
}
use mtprotor.Timers.Sift.{IsHeap}
use mtprotor.Timers.Remove.{remove_event_timer_lem}

first_least_below :
    (fuel k : ℕ) (s : Timers)
    → IsHeap s
    → k < fuel
    → 1 ≤ k
    → k ≤ s.size
    → s.time (s.slot 1) ≤ s.time (s.slot k)
first_least_below zero k s v enough one le = absurd (omega arith)
first_least_below (suc fuel) k s v enough one le =
    ground (arith, v.edges k, first_least_below fuel (k / 2) s v)

-- The first timer of the heap is not later than any other.
pub first_least : (s : Timers) → IsHeap s → (t : ℕ) → s.h_idx t ≢ 0 → s.time (s.slot 1) ≤ s.time t
first_least s v t there =
    let least : s.time (s.slot 1) ≤ s.time (s.slot (s.h_idx t)) =
      first_least_below (suc s.size) (s.h_idx t) s v (omega (arith, v.inside t)) (ground arith)
        (v.inside t) in
    rw (v.live t there) at least

-- Functions of timers that keep the heap a heap and do not make it larger.
pub record KeepsHeap (wakeup : ℕ → Timers → Timers) : Type 0 where
  pub heap : (t : ℕ) (s : Timers) → IsHeap s → IsHeap (wakeup t s)
  pub size : (t : ℕ) (s : Timers) → (wakeup t s).size ≤ s.size

-- All timers that are left are later than `now`, and the result says when the first is due.
pub record Waits (now : ℕ) (next : Option ℕ) (r : Timers) : Type 0 where
  pub heap : IsHeap r
  pub later : (t : ℕ) → r.h_idx t ≢ 0 → now < r.time t
  pub until : next ≡ until_next now r

here-Waits :
    (now : ℕ) (s : Timers)
    → IsHeap s
    → (ltb 0 s.size && leb (s.time (s.slot 1)) now) ≡ false
    → Waits now (until_next now s) s
here-Waits now s v none_due = record {
  heap = v;
  later = λ t there. ground (arith, first_least s v t, v.inside t);
  until = refl;
}

nothing_left : (now : ℕ) (s : Timers) → IsHeap s → (s.size == 0) ≡ true → Waits now none s
unfolding until_next
nothing_left now s v empty = record {
  heap = v;
  later = λ t there. absurd (ground (arith, v.inside t));
  until = rw empty refl;
}

alarm-IsHeap : (s : Timers) → IsHeap s → IsHeap (alarm s)
alarm-IsHeap s v = record {
  index = v.index;
  inside = v.inside;
  live = v.live;
  edges = v.edges;
  counted = v.counted;
}

module _ (wakeup : ℕ → Timers → Timers) (keeps : KeepsHeap wakeup) where
  loop_step :
      (fuel now : ℕ) (s r : Timers)
      → (ltb 0 s.size && leb (s.time (s.slot 1)) now) ≡ true
      → s.h_idx (s.slot 1) ≡ 1
      → remove_event_timer (s.slot 1) s ≡ some (1, r)
      → run_loop wakeup (suc fuel) now s ≡ run_loop wakeup fuel now (alarm (wakeup (s.slot 1) r))
  unfolding run_loop
  loop_step fuel now s r due at_one e = rw (due, at_one, e, run_loop) refl

  run_loop_lem :
      (fuel now : ℕ) (s : Timers)
      → IsHeap s
      → s.size < fuel
      → (next : Option ℕ) × (r : Timers) × (run_loop wakeup fuel now s ≡ waits next r)
        × Waits now next r
  unfolding run_loop
  run_loop_lem zero now s v enough = absurd (omega arith)
  run_loop_lem (suc fuel) now s v enough =
      elim (Bool-cases (ltb 0 s.size && leb (s.time (s.slot 1)) now)) [
        | inr none_due ↦
            let fine : (not (s.size == 0) && leb (s.time (s.slot 1)) now) ≡ false = ground arith in
            (until_next now s, s, rw (none_due, fine, run_loop) refl, here-Waits now s v none_due)
        | inl due ↦
            let some_timer : 1 ≤ s.size = ground arith in
            let at_one : s.h_idx (s.slot 1) ≡ 1 = v.index 1 (omega arith) some_timer in
            let there : s.h_idx (s.slot 1) ≢ 0 = ground arith in
            let (r, e, left) = remove_event_timer_lem (s.slot 1) s v there in
            let next_state = alarm (wakeup (s.slot 1) r) in
            let (next, final, f, w) =
              run_loop_lem fuel now next_state
                (alarm-IsHeap (wakeup (s.slot 1) r) (keeps.heap (s.slot 1) r left.heap))
                (omega (arith, keeps.size (s.slot 1) r, left.size, some_timer, enough)) in
            (next, final, loop_step fuel now s r due at_one e ∙ f, w)
      ]

  -- Where the timers' functions keep the heap a heap and do not make it larger, the run ends and fails
  -- no assertion; all timers that are left are later than `now`, and the result tells when the first of
  -- them is due. As many turns as there are timers, and one more, are enough.
  pub thread_run_timers_lem :
      (now : ℕ) (s : Timers)
      → IsHeap s
      → (next : Option ℕ) × (r : Timers) × (thread_run_timers wakeup (suc s.size) now s
          ≡ waits next r)
        × Waits now next r
  unfolding thread_run_timers until_next
  thread_run_timers_lem now s v = elim (Bool-cases (s.size == 0)) [
    | inl empty ↦ (none, s, rw (empty, thread_run_timers) refl, nothing_left now s v empty)
    | inr some_timer ↦ elim (Bool-cases (ltb now (s.time (s.slot 1)))) [
      | inl early ↦ (
        until_next now s,
        s,
        rw (some_timer, early, thread_run_timers) refl,
        here-Waits now s v (ground arith),
      )
      | inr due ↦
          let (next, r, e, w) = run_loop_lem (suc s.size) now s v (omega arith) in
          (next, r, rw (some_timer, due, thread_run_timers) e, w)
    ]
  ]
