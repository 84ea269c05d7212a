-- ===== src/Tests/Timers.antt =====
-- The heap of timers at concrete inputs.
use mtprotor.Base.{ℕ, ◌+◌, ◌*◌, ◌≡◌, refl, arith, Option, none, some, inr}
use mtprotor.Timers.{
  Timers, upd, insert_event_timer, remove_event_timer, thread_run_timers, up_loop, down_loop,
  basic_et_adjust, move, child_of, place, waits,
}
use mtprotor.Timers.Sift.{IsHeap}
use mtprotor.Timers.Heap.{reschedule, Inserted, insert_event_timer_lem}
use mtprotor.Timers.Remove.{Removed, remove_event_timer_lem}
use mtprotor.Timers.Run.{KeepsHeap, Waits, thread_run_timers_lem}

-- Timer 5 is due at 100 and timer 9 at 120.
abbrev two_timers : Timers
two_timers = record {
  size = 2;
  slot = upd (upd (λ i. 0) 1 5) 2 9;
  time = upd (λ t. 100) 9 120;
  h_idx = upd (upd (λ t. 0) 5 1) 9 2;
  insert_ops = 2;
  remove_ops = 0;
  alarms = 0;
  total_timers = 2;
}

two_timers-IsHeap : IsHeap two_timers
two_timers-IsHeap = record {
  index = λ k one le. ground arith;
  inside = λ u. ground arith;
  live = λ u there. ground arith;
  edges = λ k two le. ground arith;
  counted = refl;
}

-- Timer 3 comes in with an earlier time and goes to the top.
insert_event_timer_lem_example :
    (k : ℕ) × (r : Timers) × (insert_event_timer 3 (reschedule 3 90 two_timers) ≡ some (k, r))
    × (r.h_idx 3 ≡ k)
    × Inserted 3 90 two_timers r
insert_event_timer_lem_example =
    insert_event_timer_lem 3 90 two_timers two_timers-IsHeap (inr (omega arith))

remove_event_timer_lem_example :
    (r : Timers) × (remove_event_timer 5 two_timers ≡ some (1, r)) × Removed 5 two_timers r
remove_event_timer_lem_example =
    remove_event_timer_lem 5 two_timers two_timers-IsHeap (λ e. absurd (ground arith))

abbrev idle : ℕ → Timers → Timers
idle t s = s

idle-KeepsHeap : KeepsHeap idle
idle-KeepsHeap = record { heap = λ t s v. v; size = λ t s. omega arith }

thread_run_timers_lem_example :
    (next : Option ℕ) × (r : Timers) × (thread_run_timers idle 3 110 two_timers ≡ waits next r)
    × Waits 110 next r
thread_run_timers_lem_example =
    thread_run_timers_lem idle idle-KeepsHeap 110 two_timers two_timers-IsHeap

-- Timer 3 stands at place 1, and timer 5 is below it.
abbrev where_five : Option (ℕ × Timers) → ℕ
where_five none = 0
where_five (some (k, r)) = k * 100 + r.h_idx 5

top_moves_down : where_five (insert_event_timer 3 (reschedule 3 90 two_timers)) ≡ 103
unfolding insert_event_timer basic_et_adjust up_loop down_loop move child_of place
top_moves_down = refl
