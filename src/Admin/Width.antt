-- ===== src/Admin/Width.antt =====
-- How long the lines are that the answers to STATUS and LIST are made of.
use mtprotor.Admin.Answer.{column, counter, status_line, list_head, list_line}
use mtprotor.Admin.Digits.{length-print_nat-int, length-print_int}
use mtprotor.Base.{
  ℕ, ◌+◌, ◌^◌, ◌≤◌, ◌<◌, ap, Bool, true, false, List, [], ◌∷◌, ◌++◌, ltb, All, arith, if◌then◌else◌,
  length, length-append, Bool-cases, inl, inr,
}
use mtprotor.Base.Int.{ℤ}
use mtprotor.Base.Scan.Laws.{IsLong}
use mtprotor.Base.Text.{codes}
use mtprotor.Secret.Active.{is_active, total_secret_count, active_secret_count, count_active}
use mtprotor.Secret.Hex.Laws.{length-to_hex}
use mtprotor.Secret.Persist.{metric_of, print_bool}
use mtprotor.Secret.State.{Store, Env, Entry, Metric, word64, signed64, add64}
use mtprotor.Secret.Valid.{IsEntry, IsValid}

-- The numbers of an entry and of its counters are in the ranges of their C types.
pub record Printable (m : Metric) (e : Entry) : Type 0 where
  pub id : e.id < 2 ^ 31
  pub expires_at : IsLong e.expires_at
  pub created_at : IsLong e.created_at
  pub updated_at : IsLong e.updated_at
  pub last_seen_at : IsLong e.last_seen_at
  pub bytes_in : m.bytes_in < word64
  pub bytes_out : m.bytes_out < word64
  pub connections : m.connections < word64

pub record Shown (env : Env) (s : Store) : Type 0 where
  pub valid : IsValid s
  pub now : IsLong env.now
  pub few : length s.entries < 2 ^ 31
  pub total_in : s.total_in < word64
  pub total_out : s.total_out < word64
  pub total_connections : s.total_connections < word64
  pub each : All (λ e. Printable (metric_of s.metrics e.id) e) s.entries

pub within : {a b n : ℕ} → n ≤ a → a ≤ b → n ≤ b
within h k = omega arith

pub column-le :
    (name value rest : List ℕ) {a b : ℕ}
    → length value ≤ a
    → length rest ≤ b
    → length (column name value rest) ≤ length name + (a + b)
column-le name value rest h k =
    omega (arith, length-append name (value ++ rest), length-append value rest)

counter-le : (w : ℕ) → w < word64 → length (counter w) ≤ 20
counter-le w h = length-print_int (signed64 w) (elim (Bool-cases (ltb w (2 ^ 63))) [
  | inl low ↦ rw low (ground arith)
  | inr high ↦ rw high (ground arith)
])

counter_sum-le : (v w : ℕ) → length (counter (add64 v w)) ≤ 20
counter_sum-le v w = counter-le (add64 v w) (omega arith)

print_bool-le : (b : Bool) → length (print_bool b) ≤ 1
print_bool-le true = omega arith
print_bool-le false = omega arith

abbrev pub line_end : List ℕ
line_end = 10 ∷ []

pub newline-le : length line_end ≤ 1
newline-le = omega arith

pub list_line-le :
    (n counters : ℕ) (m : Metric) (e : Entry)
    → IsEntry n counters e
    → Printable m e
    → length (list_line m e) ≤ 511
unfolding list_line
list_line-le n counters m e v p =
    let hex : length e.hex ≤ 32 =
      omega (arith, ap length v.hex, length-to_hex e.secret, v.secret.0) in
    within
      (column-le (codes "secret=") _ _ hex (
        column-le (codes " id=") _ _ (length-print_nat-int e.id (omega (arith, p.id))) (
          column-le (codes " enabled=") _ _ (print_bool-le e.enabled) (
            column-le (codes " expires=") _ _ (length-print_int e.expires_at p.expires_at) (
              column-le (codes " created=") _ _ (length-print_int e.created_at p.created_at) (
                column-le (codes " updated=") _ _ (length-print_int e.updated_at p.updated_at) (
                  column-le (codes " bytes_in=") _ _ (counter-le m.bytes_in p.bytes_in) (
                    column-le (codes " bytes_out=") _ _ (counter-le m.bytes_out p.bytes_out) (
                      column-le (codes " bytes_total=") _ _ (counter_sum-le m.bytes_in m.bytes_out)
                        (column-le (codes " connections=") _ _
                          (counter-le m.connections p.connections)
                          (column-le (codes " last_seen=") _ _
                            (length-print_int e.last_seen_at p.last_seen_at)
                            (column-le (codes " last_ip=") _ _ v.last_ip.short
                              (column-le (codes " label=") _ _ v.label.short newline-le)))))))))))))
      (omega arith)

count_active-le : (now : ℤ) (n : ℕ) (es : List Entry) → count_active now n es ≤ n + length es
unfolding count_active
count_active-le now n [] = omega arith
count_active-le now n (e ∷ es) =
    let rest = count_active-le now (n + (if is_active e now then 1 else 0)) es in
    ground (arith, rest)

active-le : (env : Env) (s : Store) → active_secret_count s env.now ≤ length s.entries
unfolding active_secret_count
active-le env s = omega (arith, count_active-le env.now 0 s.entries)

pub status_line-le : (env : Env) (s : Store) → Shown env s → length (status_line env s) ≤ 255
unfolding status_line total_secret_count
status_line-le env s h =
    within
      (column-le (codes "OK total=") _ _
        (length-print_nat-int (length s.entries) (omega (arith, h.few)))
        (column-le (codes " active=") _ _
          (length-print_nat-int (active_secret_count s env.now)
            (omega (arith, h.few, active-le env s)))
          (column-le (codes " now=") _ _ (length-print_int env.now h.now) (
            column-le (codes " bytes_in=") _ _ (counter-le s.total_in h.total_in) (
              column-le (codes " bytes_out=") _ _ (counter-le s.total_out h.total_out) (
                column-le (codes " bytes_total=") _ _ (counter_sum-le s.total_in s.total_out) (
                  column-le (codes " connections=") _ _
                    (counter-le s.total_connections h.total_connections) newline-le)))))))
      (omega arith)

pub list_head-le : (env : Env) (s : Store) → Shown env s → length (list_head env s) ≤ 511
unfolding list_head total_secret_count
list_head-le env s h =
    within
      (column-le (codes "OK total=") _ _
        (length-print_nat-int (length s.entries) (omega (arith, h.few)))
        (column-le (codes " active=") _ _
          (length-print_nat-int (active_secret_count s env.now)
            (omega (arith, h.few, active-le env s)))
          (column-le (codes " bytes_in=") _ _ (counter-le s.total_in h.total_in) (
            column-le (codes " bytes_out=") _ _ (counter-le s.total_out h.total_out) (
              column-le (codes " bytes_total=") _ _ (counter_sum-le s.total_in s.total_out) (
                column-le (codes " connections=") _ _
                  (counter-le s.total_connections h.total_connections) newline-le))))))
      (omega arith)
