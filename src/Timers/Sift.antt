-- ===== src/Timers/Sift.antt =====
-- The two loops of basic_et_adjust, and the heap that it leaves.
use mtprotor.Base.{
  ℕ, zero, suc, ◌+◌, ◌*◌, ◌/◌, ◌≤◌, ◌<◌, ◌≡◌, ◌≢◌, refl, sym, ap, ◌∙◌, arith, ◌&&◌, some, ltb, leb,
  ◌==◌, Bool-cases, inl, inr,
}
use mtprotor.Timers.{Timers, move, child_of, up_loop, down_loop, place, basic_et_adjust}
use mtprotor.Timers.Hole.{Hole, move-up, move-down, child_of-least, child_of-child}

-- What the loops leave alone: which of the other timers are in the heap, their times and the counts.
pub record Kept (t : ℕ) (s r : Timers) : Type 0 where
  pub size : r.size ≡ s.size
  pub time : r.time ≡ s.time
  pub total_timers : r.total_timers ≡ s.total_timers
  pub others : (u : ℕ) → u ≢ t → (r.h_idx u == 0) ≡ (s.h_idx u == 0)

Kept-refl : (t : ℕ) (s : Timers) → Kept t s s
Kept-refl t s = record { size = refl; time = refl; total_timers = refl; others = λ u ne. refl }

Kept-trans : {t : ℕ} {a b c : Timers} → Kept t a b → Kept t b c → Kept t a c
Kept-trans h k = record {
  size = k.size ∙ h.size;
  time = k.time ∙ h.time;
  total_timers = k.total_timers ∙ h.total_timers;
  others = λ u ne. k.others u ne ∙ h.others u ne;
}

move-Kept :
    (t i j : ℕ) (s : Timers) → Hole t i s → 1 ≤ j → j ≤ s.size → j ≢ i → Kept t s (move j i s)
unfolding move
move-Kept t i j s h one le ne = record {
  size = refl;
  time = refl;
  total_timers = refl;
  others = λ u other. ground (arith, h.index j, h.from_one);
}

-- The hole has come to a place below a timer that is not later.
abbrev pub Above : ℕ → ℕ → Timers → Type 0
Above w i s = 2 ≤ i → s.time (s.slot (i / 2)) ≤ w

abbrev pub Below : ℕ → ℕ → Timers → Type 0
Below w i s = (k : ℕ) → k ≤ s.size → k / 2 ≡ i → w ≤ s.time (s.slot k)

up_loop_lem :
    (fuel t w i : ℕ) (s : Timers)
    → Hole t i s
    → i < fuel
    → (j : ℕ) × (r : Timers) × (up_loop fuel w i s ≡ some (j, r))
      × Hole t j r
      × Above w j r
      × Kept t s r
unfolding up_loop
up_loop_lem zero t w i s h enough = absurd (omega arith)
up_loop_lem (suc fuel) t w i s h enough =
    elim (Bool-cases (ltb 1 i && ltb w (s.time (s.slot (i / 2))))) [
      | inl rise ↦
          let deep : 1 < i = ground arith in
          let (j, r, e, hole, above, kept) =
            up_loop_lem fuel t w (i / 2) (move (i / 2) i s) (move-up t i s h deep) (omega arith) in
          (
            j,
            r,
            rw (rise, up_loop) e,
            hole,
            above,
            Kept-trans
                (move-Kept t i (i / 2) s h (omega arith) (omega (arith, h.inside))
                  (λ e. omega (arith, e)))
                kept,
          )
      | inr settled ↦ (i, s, rw (settled, up_loop) refl, h, λ deep. ground arith, Kept-refl t s)
    ]

Above-move : (w i c : ℕ) (s : Timers) → c / 2 ≡ i → s.time (s.slot c) ≤ w → Above w c (move c i s)
unfolding move
Above-move w i c s child le deep = ground arith

down_loop_lem :
    (fuel t w i : ℕ) (s : Timers)
    → Hole t i s
    → Above w i s
    → s.size < fuel + i
    → (j : ℕ) × (r : Timers) × (down_loop fuel w i s ≡ some (j, r))
      × Hole t j r
      × Above w j r
      × Below w j r
      × Kept t s r
unfolding down_loop
down_loop_lem zero t w i s h above enough = absurd (omega (arith, enough, h.inside))
down_loop_lem (suc fuel) t w i s h above enough =
    elim (Bool-cases (leb (2 * i) s.size && ltb (s.time (s.slot (child_of i s))) w)) [
      | inl sink ↦
          let some_child : 2 * i ≤ s.size = ground arith in
          let (child, deeper, fits) = child_of-child i s some_child in
          let c = child_of i s in
          let lower : i < c = omega (arith, deeper, h.from_one) in
          let ne : c ≢ i = λ e. omega (arith, e, lower) in
          let kept : Kept t s (move c i s) = move-Kept t i c s h (omega (arith, lower)) fits ne in
          let hole =
            move-down t i c s h child fits lower
              (λ k le e. child_of-least i k s some_child le e h.from_one) in
          let (j, r, e, hole', above', below, kept') =
            down_loop_lem fuel t w c (move c i s) hole (Above-move w i c s child (ground arith))
              (omega (arith, kept.size, lower, enough)) in
          (j, r, rw (sink, down_loop) e, hole', above', below, Kept-trans kept kept')
      | inr settled ↦ (
        i,
        s,
        rw (settled, down_loop) refl,
        h,
        above,
        λ k le e. ground (arith, child_of-least i k s, h.from_one),
        Kept-refl t s,
      )
    ]

-- A heap: the timers know their places, no timer is earlier than its parent, and the count is that of
-- the statistics.
pub record IsHeap (s : Timers) : Type 0 where
  pub index : (k : ℕ) → 1 ≤ k → k ≤ s.size → s.h_idx (s.slot k) ≡ k
  pub inside : (u : ℕ) → s.h_idx u ≤ s.size
  pub live : (u : ℕ) → s.h_idx u ≢ 0 → s.slot (s.h_idx u) ≡ u
  pub edges : (k : ℕ) → 2 ≤ k → k ≤ s.size → s.time (s.slot (k / 2)) ≤ s.time (s.slot k)
  pub counted : s.total_timers ≡ s.size

place-IsHeap :
    (t w i : ℕ) (s : Timers)
    → Hole t i s
    → s.time t ≡ w
    → Above w i s
    → Below w i s
    → s.total_timers ≡ s.size
    → IsHeap (place t i s)
unfolding place
place-IsHeap t w i s h same above below counted = record {
  index = λ k one le. ground (arith, h.index k, h.absent k);
  inside = λ u. ground (arith, h.live_from u, h.inside);
  live = λ u there. ground (arith, h.live u, h.live_else u);
  edges = λ k two le. ground (arith, h.edges k, below k, above, h.from_one, same);
  counted = counted;
}

place-Kept : (t i : ℕ) (s : Timers) → Kept t s (place t i s)
unfolding place
place-Kept t i s = record {
  size = refl;
  time = refl;
  total_timers = refl;
  others = λ u ne. ground arith;
}

adjusted :
    (t i : ℕ) (s : Timers) (j : ℕ) (a : Timers) (k : ℕ) (b : Timers)
    → up_loop (suc s.size) (s.time t) i s ≡ some (j, a)
    → down_loop (suc s.size) (s.time t) j a ≡ some (k, b)
    → basic_et_adjust t i s ≡ some (k, place t k b)
unfolding basic_et_adjust
adjusted t i s j a k b e e' = rw (e, e', basic_et_adjust) refl

-- A timer for which the heap has a hole is put into the heap, and no other timer leaves or enters it.
pub adjust_lem :
    (t i : ℕ) (s : Timers)
    → Hole t i s
    → s.total_timers ≡ s.size
    → (k : ℕ) × (r : Timers) × (basic_et_adjust t i s ≡ some (k, r))
      × IsHeap r
      × (r.h_idx t ≡ k)
      × (k ≢ 0)
      × Kept t s r
adjust_lem t i s h counted =
    let (j, a, e, hole, above, kept) =
      up_loop_lem (suc s.size) t (s.time t) i s h (omega (arith, h.inside)) in
    let (k, b, e', hole', above', below, kept') =
      down_loop_lem (suc s.size) t (s.time t) j a hole above
        (omega (arith, kept.size, hole.from_one)) in
    let all = Kept-trans kept kept' in
    (
      k,
      place t k b,
      adjusted t i s j a k b e e',
      place-IsHeap t (s.time t) k b hole' (ap (λ f. f t) all.time) above' below
          (all.total_timers ∙ counted ∙ sym all.size),
      unfold place in ground arith,
      λ z. omega (arith, z, hole'.from_one),
      Kept-trans all (place-Kept t k b),
    )
