-- ===== src/Timers.antt =====
-- The heap of event timers of a thread (net/net-timers.c). The array et_heap, whose element 0 is not
-- used, and the fields of the timers are functions of an index and of the number of a timer. A wake-up
-- time is a number of ticks, since the code only compares times and subtracts them.
pub mod Hole
pub mod Sift
pub mod Heap
pub mod Remove
pub mod Run
use mtprotor.Base.{
  ℕ, zero, suc, ◌+◌, ◌-◌, ◌*◌, ◌/◌, ◌^◌, Bool, true, false, not, ◌&&◌, Option, none, some, ltb, leb,
  ◌==◌, if◌then◌else◌,
}

-- `slot i` is et_heap[i], `time t` and `h_idx t` are wakeup_time and h_idx of timer `t`. The last four
-- fields are the statistics of the module.
pub record Timers : Type 0 where
  pub size : ℕ
  pub slot : ℕ → ℕ
  pub time : ℕ → ℕ
  pub h_idx : ℕ → ℕ
  pub insert_ops : ℕ
  pub remove_ops : ℕ
  pub alarms : ℕ
  pub total_timers : ℕ

-- MAX_EVENT_TIMERS
abbrev pub max_event_timers : ℕ
max_event_timers = 2 ^ 19

abbrev pub upd : (ℕ → ℕ) → ℕ → ℕ → ℕ → ℕ
upd f i v j = if j == i then v else f j

-- et_heap[i] = et_heap[j]; et_heap[i]->h_idx = i;
unfoldable pub move : ℕ → ℕ → Timers → Timers
move j i s = record s { slot = upd s.slot i (s.slot j); h_idx = upd s.h_idx (s.slot j) i }

-- The first loop of basic_et_adjust, for a timer of time `w`. `none` is no fuel left.
unfoldable pub up_loop : ℕ → ℕ → ℕ → Timers → Option (ℕ × Timers)
up_loop zero w i s = none
up_loop (suc fuel) w i s = elim (ltb 1 i && ltb w (s.time (s.slot (i / 2)))) [
  | false ↦ some (i, s)
  | true ↦ up_loop fuel w (i / 2) (move (i / 2) i s)
]

-- The smaller one of the children of `i`, of which the left one is in the heap.
unfoldable pub child_of : ℕ → Timers → ℕ
child_of i s =
    if ltb (2 * i) s.size && ltb (s.time (s.slot (2 * i + 1))) (s.time (s.slot (2 * i)))
    then 2 * i + 1
    else 2 * i

-- The second loop.
unfoldable pub down_loop : ℕ → ℕ → ℕ → Timers → Option (ℕ × Timers)
down_loop zero w i s = none
down_loop (suc fuel) w i s = elim (leb (2 * i) s.size && ltb (s.time (s.slot (child_of i s))) w) [
  | false ↦ some (i, s)
  | true ↦ down_loop fuel w (child_of i s) (move (child_of i s) i s)
]

-- et_heap[i] = et; et->h_idx = i;
unfoldable pub place : ℕ → ℕ → Timers → Timers
place t i s = record s { slot = upd s.slot i t; h_idx = upd s.h_idx t i }

-- The place that the timer takes, and the heap with it. Indices at least double or halve in every
-- turn, so that as many turns as there are timers are enough.
unfoldable pub basic_et_adjust : ℕ → ℕ → Timers → Option (ℕ × Timers)
basic_et_adjust t i s = elim (up_loop (suc s.size) (s.time t) i s) [
  | none ↦ none
  | some (j, above) ↦ elim (down_loop (suc s.size) (s.time t) j above) [
    | none ↦ none
    | some (k, below) ↦ some (k, place t k below)
  ]
]

-- assert (i > 0 && i <= et_heap_size && et_heap[i] == et);
unfoldable pub in_place : ℕ → Timers → Bool
in_place t s = ltb 0 (s.h_idx t) && leb (s.h_idx t) s.size && s.slot (s.h_idx t) == t

-- `none` is a failed assertion.
unfoldable pub insert_event_timer : ℕ → Timers → Option (ℕ × Timers)
insert_event_timer t s =
    if not (s.h_idx t == 0)
    then if in_place t s then basic_et_adjust t (s.h_idx t) counted else none
    else if ltb s.size max_event_timers
    then basic_et_adjust t (s.size + 1)
        (record counted { size = s.size + 1; total_timers = s.total_timers + 1 })
    else none
  where
    counted : Timers
    counted = record s { insert_ops = s.insert_ops + 1 }

-- The result is 0 for a timer that is not in the heap, and 1 else.
unfoldable pub remove_event_timer : ℕ → Timers → Option (ℕ × Timers)
remove_event_timer t s =
    if s.h_idx t == 0
    then some (0, s)
    else if not (in_place t s)
    then none
    else if ltb (s.size - 1) (s.h_idx t)
    then some (1, taken)
    else elim (basic_et_adjust (s.slot s.size) (s.h_idx t) taken) [
      | none ↦ none
      | some (k, left) ↦ some (1, left)
    ]
  where
    taken : Timers
    taken = record s {
      size = s.size - 1;
      h_idx = upd s.h_idx t 0;
      remove_ops = s.remove_ops + 1;
      total_timers = s.total_timers - 1;
    }

-- How thread_run_timers ends: with its result, the ticks until the next timer or `none` for an empty
-- heap, at a failed assertion, or still in its loop.
pub data Ran : Type 0 where
  waits : Option ℕ → Timers → Ran
  aborted : Ran
  runs_on : Ran

unfoldable pub until_next : ℕ → Timers → Option ℕ
until_next now s = if s.size == 0 then none else some (s.time (s.slot 1) - now)

abbrev pub alarm : Timers → Timers
alarm s = record s { alarms = s.alarms + 1 }

-- The loop; `wakeup t` is the effect of the function that timer `t` calls. After it the heap is empty
-- or its first timer is late enough, which the last assertion says.
unfoldable pub run_loop : (ℕ → Timers → Timers) → ℕ → ℕ → Timers → Ran
run_loop wakeup zero now s = runs_on
run_loop wakeup (suc fuel) now s = elim (ltb 0 s.size && leb (s.time (s.slot 1)) now) [
  | false ↦
      if not (s.size == 0) && leb (s.time (s.slot 1)) now
      then aborted
      else waits (until_next now s) s
  | true ↦ elim (s.h_idx (s.slot 1) == 1) [
    | false ↦ aborted
    | true ↦ elim (remove_event_timer (s.slot 1) s) [
      | none ↦ aborted
      | some (removed, r) ↦ run_loop wakeup fuel now (alarm (wakeup (s.slot 1) r))
    ]
  ]
]

unfoldable pub thread_run_timers : (ℕ → Timers → Timers) → ℕ → ℕ → Timers → Ran
thread_run_timers wakeup fuel now s =
    if s.size == 0
    then waits none s
    else if ltb now (s.time (s.slot 1))
    then waits (until_next now s) s
    else run_loop wakeup fuel now s

-- 0 stands for an empty heap.
unfoldable pub timers_get_first : Timers → ℕ
timers_get_first s = if s.size == 0 then 0 else s.time (s.slot 1)
