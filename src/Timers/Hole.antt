-- ===== src/Timers/Hole.antt =====
-- A heap with a hole: the place of a timer that is on its way.
use mtprotor.Base.{ℕ, ◌+◌, ◌*◌, ◌/◌, ◌≤◌, ◌<◌, ◌≡◌, ◌≢◌, arith, ◌⊎◌, inl, inr}
use mtprotor.Timers.{Timers, move, child_of}

-- The heap without the place `i`, which is kept for timer `t`.
pub record Hole (t i : ℕ) (s : Timers) : Type 0 where
  pub from_one : 1 ≤ i
  pub inside : i ≤ s.size
  pub index : (k : ℕ) → 1 ≤ k → k ≤ s.size → k ≢ i → s.h_idx (s.slot k) ≡ k
  pub absent : (k : ℕ) → 1 ≤ k → k ≤ s.size → k ≢ i → s.slot k ≢ t
  pub live_from : (u : ℕ) → u ≢ t → s.h_idx u ≢ 0 → s.h_idx u ≤ s.size
  pub live_else : (u : ℕ) → u ≢ t → s.h_idx u ≢ 0 → s.h_idx u ≢ i
  pub live : (u : ℕ) → u ≢ t → s.h_idx u ≢ 0 → s.slot (s.h_idx u) ≡ u
  pub edges :
      (k : ℕ) → 2 ≤ k → k ≤ s.size → k ≢ i → k / 2 ≢ i → s.time (s.slot (k / 2)) ≤ s.time (s.slot k)
  pub bridge :
      (k : ℕ) → k ≤ s.size → k / 2 ≡ i → 2 ≤ i → s.time (s.slot (i / 2)) ≤ s.time (s.slot k)

-- The hole goes up to its parent.
pub move-up : (t i : ℕ) (s : Timers) → Hole t i s → 1 < i → Hole t (i / 2) (move (i / 2) i s)
unfolding move
move-up t i s h deep = record {
  from_one = omega arith;
  inside = omega (arith, h.inside);
  index = λ k one le ne. grind (arith, h.index k, h.index (i / 2), h.inside);
  absent = λ k one le ne. ground (arith, h.absent k, h.absent (i / 2), h.inside);
  live_from = λ u ne there. ground (arith, h.live_from u, h.inside);
  live_else = λ u ne there. ground (arith, h.live u, h.live_else u);
  live = λ u ne there. ground (arith, h.live u, h.live_else u);
  edges = λ k two le ne ne'. ground (arith, h.edges k, h.bridge k, h.inside);
  bridge = λ k le e two. ground (arith, h.edges k, h.edges (i / 2), h.inside);
}

-- The smaller child is not above the other one.
pub child_of-least :
    (i k : ℕ) (s : Timers)
    → 2 * i ≤ s.size
    → k ≤ s.size
    → k / 2 ≡ i
    → 1 ≤ i
    → s.time (s.slot (child_of i s)) ≤ s.time (s.slot k)
unfolding child_of
child_of-least i k s some_child le e one =
    let which : (k ≡ 2 * i) ⊎ (k ≡ 2 * i + 1) = ground arith in
    elim which [ inl left ↦ rw left (ground arith) | inr right ↦ rw right (ground arith) ]

pub child_of-child :
    (i : ℕ) (s : Timers)
    → 2 * i ≤ s.size
    → (child_of i s / 2 ≡ i) × (2 * i ≤ child_of i s) × (child_of i s ≤ s.size)
unfolding child_of
child_of-child i s some_child = (ground arith, ground arith, ground arith)

-- The hole goes down to a child `c` that is not above its sibling.
pub move-down :
    (t i c : ℕ) (s : Timers)
    → Hole t i s
    → c / 2 ≡ i
    → c ≤ s.size
    → i < c
    → ((k : ℕ) → k ≤ s.size → k / 2 ≡ i → s.time (s.slot c) ≤ s.time (s.slot k))
    → Hole t c (move c i s)
unfolding move
move-down t i c s h child fits deeper least = record {
  from_one = omega arith;
  inside = fits;
  index = λ k one le ne. ground (arith, h.index k, h.index c, h.inside);
  absent = λ k one le ne. ground (arith, h.absent k, h.absent c, h.inside);
  live_from = λ u ne there. ground (arith, h.live_from u, h.inside);
  live_else = λ u ne there. ground (arith, h.live u, h.live_else u);
  live = λ u ne there. ground (arith, h.live u, h.live_else u);
  edges = λ k two le ne ne'. ground (arith, h.edges k, h.bridge c, least k, h.inside, h.from_one);
  bridge = λ k le e two. ground (arith, h.edges k, h.from_one, h.inside);
}
