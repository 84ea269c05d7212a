-- ===== src/Timers/Remove.antt =====
-- Removal.
use mtprotor.Base.{
  ℕ, ◌+◌, ◌-◌, ◌<◌, ◌≡◌, ◌≢◌, refl, arith, true, false, ◌&&◌, some, ltb, leb, ◌==◌, Bool-cases, inl,
  inr,
}
use mtprotor.Timers.{Timers, upd, in_place, remove_event_timer}
use mtprotor.Timers.Hole.{Hole}
use mtprotor.Timers.Sift.{IsHeap, Kept, adjust_lem}

-- The state after the first assignments of a removal.
abbrev without : ℕ → Timers → Timers
without t s = record s {
  size = s.size - 1;
  h_idx = upd s.h_idx t 0;
  remove_ops = s.remove_ops + 1;
  total_timers = s.total_timers - 1;
}

-- What a removal leaves: a heap of the other timers.
pub record Removed (t : ℕ) (s r : Timers) : Type 0 where
  pub heap : IsHeap r
  pub away : r.h_idx t ≡ 0
  pub times : r.time ≡ s.time
  pub others : (u : ℕ) → u ≢ t → (r.h_idx u == 0) ≡ (s.h_idx u == 0)
  pub size : r.size ≡ s.size - 1

without_last :
    (t : ℕ) (s : Timers) → IsHeap s → s.h_idx t ≢ 0 → s.h_idx t ≡ s.size → Removed t s (without t s)
without_last t s v there at_end = record {
  heap = record {
    index = λ k one le. ground (arith, v.index k, v.live t);
    inside = λ u. ground (arith, v.inside u, v.live u, v.live t);
    live = λ u in_heap. ground (arith, v.live u);
    edges = λ k two le. ground (arith, v.edges k);
    counted = omega (arith, v.counted);
  };
  away = ground arith;
  times = refl;
  others = λ u ne. ground arith;
  size = refl;
}

-- The last timer goes to the place that has become free.
removed-Hole :
    (t : ℕ) (s : Timers)
    → IsHeap s
    → s.h_idx t ≢ 0
    → s.h_idx t < s.size
    → Hole (s.slot s.size) (s.h_idx t) (without t s)
removed-Hole t s v there early = record {
  from_one = ground arith;
  inside = omega (arith, early);
  index = λ k one le ne. ground (arith, v.index k, v.live t);
  absent = λ k one le ne. ground (arith, v.index k, v.index s.size);
  live_from = λ u ne in_heap. ground (arith, v.inside u, v.live u);
  live_else = λ u ne in_heap. ground (arith, v.live u, v.live t);
  live = λ u ne in_heap. ground (arith, v.live u);
  edges = λ k two le ne ne'. ground (arith, v.edges k);
  bridge = λ k le e two. ground (arith, v.edges k, v.edges (s.h_idx t));
}

-- Where the last timer has moved.
adjusted-Removed :
    (t k : ℕ) (s r : Timers)
    → IsHeap s
    → s.h_idx t ≢ 0
    → s.h_idx t < s.size
    → IsHeap r
    → r.h_idx (s.slot s.size) ≡ k
    → k ≢ 0
    → Kept (s.slot s.size) (without t s) r
    → Removed t s r
adjusted-Removed t k s r v there early heap at_k some_k kept = record {
  heap = heap;
  away =
      let ne : t ≢ s.slot s.size = λ e.
        (let f : s.h_idx t ≡ s.size = ground (arith, v.index s.size, e) in
          omega (arith, f, early)) in
      ground (arith, kept.others t ne);
  times = kept.time;
  others = λ u ne. elim (Bool-cases (u == s.slot s.size)) [
    | inl last ↦ ground (arith, at_k, some_k, v.index s.size)
    | inr other ↦ let ne' : u ≢ s.slot s.size = ground arith in ground (arith, kept.others u ne')
  ];
  size = kept.size;
}

-- A timer of the heap is removed without a failed assertion, and the heap then has the other timers.
pub remove_event_timer_lem :
    (t : ℕ) (s : Timers)
    → IsHeap s
    → s.h_idx t ≢ 0
    → (r : Timers) × (remove_event_timer t s ≡ some (1, r)) × Removed t s r
unfolding remove_event_timer in_place
remove_event_timer_lem t s v there = elim (Bool-cases (ltb (s.size - 1) (s.h_idx t))) [
  | inl last ↦ (
    without t s,
    rw (in_heap, ok, last, remove_event_timer) refl,
    without_last t s v there (ground (arith, v.inside t)),
  )
  | inr early ↦
      let (k, r, e, heap, at_k, some_k, kept) =
        adjust_lem (s.slot s.size) (s.h_idx t) (without t s)
          (removed-Hole t s v there (ground arith)) (omega (arith, v.counted)) in
      (
        r,
        rw (in_heap, ok, early, e, remove_event_timer) refl,
        adjusted-Removed t k s r v there (ground arith) heap at_k some_k kept,
      )
]
  where
    in_heap : (s.h_idx t == 0) ≡ false
    in_heap = ground arith

    ok : (ltb 0 (s.h_idx t) && leb (s.h_idx t) s.size && s.slot (s.h_idx t) == t) ≡ true
    ok = ground (arith, v.inside t, v.live t)
