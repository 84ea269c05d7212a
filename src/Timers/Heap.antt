-- ===== src/Timers/Heap.antt =====
-- Insertion and removal.
use mtprotor.Base.{
  ℕ, ◌+◌, ◌/◌, ◌<◌, ◌≡◌, ◌≢◌, ◌⊎◌, sym, ◌∙◌, arith, true, false, ◌&&◌, some, ltb, leb, ◌==◌,
  if◌then◌else◌, Bool-cases, inl, inr,
}
use mtprotor.Timers.{Timers, upd, in_place, insert_event_timer, max_event_timers}
use mtprotor.Timers.Hole.{Hole}
use mtprotor.Timers.Sift.{IsHeap, adjust_lem}

-- The caller sets the wake-up time of a timer, in the heap or not, before it inserts it.
abbrev pub reschedule : ℕ → ℕ → Timers → Timers
reschedule t w s = record s { time = upd s.time t w }

-- A timer in the heap whose time may have changed.
old-Hole :
    (t w ops : ℕ) (s : Timers)
    → IsHeap s
    → s.h_idx t ≢ 0
    → Hole t (s.h_idx t) (record s { time = upd s.time t w; insert_ops = ops })
old-Hole t w ops s v there = record {
  from_one = ground arith;
  inside = v.inside t;
  index = λ k one le ne. v.index k one le;
  absent = λ k one le ne. ground (arith, v.index k);
  live_from = λ u ne in_heap. v.inside u;
  live_else = λ u ne in_heap. ground (arith, v.live u, v.live t);
  live = λ u ne in_heap. v.live u in_heap;
  edges = λ k two le ne ne'. ground (arith, v.edges k, v.index k, v.index (k / 2));
  bridge = λ k le e two. ground (
    arith,
    v.edges k,
    v.edges (s.h_idx t),
    v.inside t,
    v.index k,
    v.live t,
    v.index (s.h_idx t / 2),
  );
}

-- A timer that is new in the heap.
new-Hole :
    (t w ops total : ℕ) (s : Timers)
    → IsHeap s
    → s.h_idx t ≡ 0
    → Hole t (s.size + 1) (record s {
      size = s.size + 1;
      time = upd s.time t w;
      insert_ops = ops;
      total_timers = total;
    })
new-Hole t w ops total s v away = record {
  from_one = omega arith;
  inside = omega arith;
  index = λ k one le ne. ground (arith, v.index k);
  absent = λ k one le ne. ground (arith, v.index k);
  live_from = λ u ne in_heap. omega (arith, v.inside u);
  live_else = λ u ne in_heap. ground (arith, v.inside u);
  live = λ u ne in_heap. v.live u in_heap;
  edges = λ k two le ne ne'. ground (arith, v.edges k, v.index k, v.index (k / 2));
  bridge = λ k le e two. absurd (omega arith);
}

-- What an insertion leaves: a heap with the timer, with the other timers that were there, and with no
-- other.
pub record Inserted (t w : ℕ) (s r : Timers) : Type 0 where
  pub heap : IsHeap r
  pub there : r.h_idx t ≢ 0
  pub times : r.time ≡ upd s.time t w
  pub others : (u : ℕ) → u ≢ t → (r.h_idx u == 0) ≡ (s.h_idx u == 0)
  pub size : r.size ≡ (if s.h_idx t == 0 then s.size + 1 else s.size)

insert-old :
    (t w : ℕ) (s : Timers)
    → IsHeap s
    → s.h_idx t ≢ 0
    → (k : ℕ) × (r : Timers) × (insert_event_timer t (reschedule t w s) ≡ some (k, r))
      × (r.h_idx t ≡ k)
      × Inserted t w s r
unfolding insert_event_timer in_place
insert-old t w s v there =
    let counted = record s { time = upd s.time t w; insert_ops = s.insert_ops + 1 } in
    let (k, r, e, heap, at_k, some_k, kept) =
      adjust_lem t (s.h_idx t) counted (old-Hole t w (s.insert_ops + 1) s v there) v.counted in
    let in_heap : (s.h_idx t == 0) ≡ false = ground arith in
    let ok : (ltb 0 (s.h_idx t) && leb (s.h_idx t) s.size && s.slot (s.h_idx t) == t) ≡ true =
      ground (arith, v.inside t, v.live t) in
    (
      k,
      r,
      rw (in_heap, ok) e,
      at_k,
      record {
        heap = heap;
        there = λ z. some_k (sym at_k ∙ z);
        times = kept.time;
        others = kept.others;
        size = rw in_heap kept.size;
      },
    )

insert-new :
    (t w : ℕ) (s : Timers)
    → IsHeap s
    → s.h_idx t ≡ 0
    → s.size < max_event_timers
    → (k : ℕ) × (r : Timers) × (insert_event_timer t (reschedule t w s) ≡ some (k, r))
      × (r.h_idx t ≡ k)
      × Inserted t w s r
unfolding insert_event_timer
insert-new t w s v away room =
    let counted = record s {
      size = s.size + 1;
      time = upd s.time t w;
      insert_ops = s.insert_ops + 1;
      total_timers = s.total_timers + 1;
    } in
    let (k, r, e, heap, at_k, some_k, kept) =
      adjust_lem t (s.size + 1) counted
        (new-Hole t w (s.insert_ops + 1) (s.total_timers + 1) s v away)
        (omega (arith, v.counted)) in
    let not_in : (s.h_idx t == 0) ≡ true = ground arith in
    let room' : ltb s.size max_event_timers ≡ true = ground arith in
    (
      k,
      r,
      rw (not_in, room') e,
      at_k,
      record {
        heap = heap;
        there = λ z. some_k (sym at_k ∙ z);
        times = kept.time;
        others = kept.others;
        size = rw not_in kept.size;
      },
    )

-- A timer whose time was set to `w`, in the heap already or with room for one more, is put into its
-- place: no assertion fails, and the heap then has this timer and the others that it had.
pub insert_event_timer_lem :
    (t w : ℕ) (s : Timers)
    → IsHeap s
    → (s.h_idx t ≢ 0) ⊎ (s.size < max_event_timers)
    → (k : ℕ) × (r : Timers) × (insert_event_timer t (reschedule t w s) ≡ some (k, r))
      × (r.h_idx t ≡ k)
      × Inserted t w s r
insert_event_timer_lem t w s v room = elim (Bool-cases (s.h_idx t == 0)) [
  | inr in_heap ↦ insert-old t w s v (ground arith)
  | inl away ↦ elim room [
    | inl there ↦ insert-old t w s v there
    | inr below ↦ insert-new t w s v (ground arith) below
  ]
]
