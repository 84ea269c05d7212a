-- ===== src/Secret/Reserve/Laws.antt =====
-- Growing an array makes the room asked for and changes nothing that is stored.
use mtprotor.Base.{
  ◌^◌, false, ℕ, zero, suc, ◌+◌, ◌-◌, ◌*◌, ◌≤◌, ◌<◌, ◌≡◌, refl, none, some, List, [], ◌∷◌, ◌++◌,
  arith, ltb, leb, ◌==◌, if◌then◌else◌, length, replicate, get_elem?, length-append,
  length-replicate, Bool-cases, subst, inl, inr,
}
use mtprotor.Secret.Persist.{metric_of}
use mtprotor.Secret.Reserve.{
  double_below-ge, double_below_mono, reserve, metrics_reserve, metrics_cap_for, cap_overflows,
  double_below,
}
use mtprotor.Secret.State.{Store, Env, Metric, zero_metric}

-- What ext_reserve_locked leaves behind.
pub record Reserved (want : ℕ) (s t : Store) : Type 0 where
  pub same : t ≡ record s { cap = t.cap }
  pub room : want ≤ t.cap
  pub grown : s.cap ≤ t.cap

pub reserve-Reserved :
    (env : Env) (want : ℕ) (s : Store) {t : Store} → reserve env want s ≡ some t → Reserved want s t
unfolding reserve
reserve-Reserved env want s {t} e = elim (Bool-cases (leb want s.cap)) [
  | inl enough ↦ record { same = ground arith; room = ground arith; grown = ground arith }
  | inr short ↦ record {
    same = ground arith;
    room = ground (arith, double_below-ge want (if s.cap == 0 then 64 else s.cap * 2) want);
    grown = ground (arith, double_below_mono want (if s.cap == 0 then 64 else s.cap * 2) want);
  }
]

-- What ext_metrics_reserve_locked leaves behind.
pub record MetricsReserved (id : ℕ) (s t : Store) : Type 0 where
  pub same : t ≡ record s { metrics = t.metrics }
  pub room : id < length t.metrics
  pub grown : length s.metrics ≤ length t.metrics
  pub kept : (i : ℕ) → metric_of t.metrics i ≡ metric_of s.metrics i

get_elem?-zeros :
    (ms : List Metric) (n i : ℕ)
    → elim (get_elem? (ms ++ replicate n zero_metric) i) [ some m ↦ m | none ↦ zero_metric ]
      ≡ elim (get_elem? ms i) [ some m ↦ m | none ↦ zero_metric ]
get_elem?-zeros [] zero i = refl
get_elem?-zeros [] (suc n) zero = refl
get_elem?-zeros [] (suc n) (suc i) = get_elem?-zeros [] n i
get_elem?-zeros (m ∷ ms) n zero = refl
get_elem?-zeros (m ∷ ms) n (suc i) = get_elem?-zeros ms n i

pub metric_of-zeros :
    (ms : List Metric) (n i : ℕ) → metric_of (ms ++ replicate n zero_metric) i ≡ metric_of ms i
unfolding metric_of
metric_of-zeros ms n i = rw (get_elem?-zeros ms n i) refl

abbrev grown_store : ℕ → Store → Store
grown_store id s = record s {
  metrics = s.metrics ++ replicate (metrics_cap_for id s.metrics - length s.metrics) zero_metric;
}

grown_store-MetricsReserved : (id : ℕ) (s : Store) → MetricsReserved id s (grown_store id s)
unfolding metrics_cap_for
grown_store-MetricsReserved id s = record {
  same = refl;
  room = ground (arith, size, double_below-ge (id + 1) start (id + 1));
  grown = omega (arith, size);
  kept = metric_of-zeros s.metrics (metrics_cap_for id s.metrics - length s.metrics);
}
  where
    start : ℕ
    start = if length s.metrics == 0 then 64 else length s.metrics

    size :
        length (grown_store id s).metrics
        ≡ length s.metrics + (metrics_cap_for id s.metrics - length s.metrics)
    size = omega (
      arith,
      length-append s.metrics
          (replicate (metrics_cap_for id s.metrics - length s.metrics) zero_metric),
      length-replicate (metrics_cap_for id s.metrics - length s.metrics) zero_metric,
    )

pub metrics_reserve-MetricsReserved :
    (env : Env) (id : ℕ) (s : Store) {t : Store}
    → metrics_reserve env id s ≡ some t
    → MetricsReserved id s t
unfolding metrics_reserve
metrics_reserve-MetricsReserved env id s {t} e = elim (Bool-cases (ltb id (length s.metrics))) [
  | inl enough ↦
      let same : s ≡ t = ground arith in
      subst (MetricsReserved id s) same
        (record { same = refl; room = ground arith; grown = omega arith; kept = λ i. refl })
  | inr short ↦ elim (Bool-cases env.calloc_ok) [
    | inl given ↦
        let same : grown_store id s ≡ t = ground arith in
        subst (MetricsReserved id s) same (grown_store-MetricsReserved id s)
    | inr refused ↦ ground arith
  ]
]

double_below-lt :
    (fuel cap limit : ℕ) → cap < 2 ^ 31 → limit ≤ 2 ^ 30 → double_below fuel cap limit < 2 ^ 31
unfolding double_below
double_below-lt zero cap limit h k = h
double_below-lt (suc fuel) cap limit h k = ground (arith, double_below-lt fuel (cap * 2) limit)

-- For an id below 2^30 an int can hold the number of counters.
pub cap_overflows-small :
    (id : ℕ) (metrics : List Metric) → id < 2 ^ 30 → cap_overflows id metrics ≡ false
unfolding cap_overflows metrics_cap_for
cap_overflows-small id metrics h = elim (Bool-cases (ltb id (length metrics))) [
  | inl enough ↦ rw enough refl
  | inr short ↦
      let start : (if length metrics == 0 then 64 else length metrics) < 2 ^ 31 = ground arith in
      let fits =
        double_below-lt (id + 1) (if length metrics == 0 then 64 else length metrics) (id + 1) start
          (omega arith) in
      ground (arith, fits)
]
