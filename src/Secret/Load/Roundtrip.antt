-- ===== src/Secret/Load/Roundtrip.antt =====
-- The state file as it is written and read.
use mtprotor.Base.{
  ℕ, ◌+◌, ◌^◌, ◌≤◌, ◌<◌, ◌≡◌, refl, sym, ap, ◌∙◌, true, false, not, ◌||◌, some, List, [], ◌∷◌, ◌++◌,
  leb, ◌==◌, All, All-right, length, arith, Bool-cases, inl, inr, subst, append_assoc, append-nil,
  same_bytes_refl,
}
use mtprotor.Base.Fields.{lines}
use mtprotor.Base.Search.{count, count-append}
use mtprotor.Secret.Add.{has_secret, has_id}
use mtprotor.Secret.Load.{loaded, read_lines, total_up, load_secrets_state}
use mtprotor.Secret.Load.Reading.{InRange, read_line-entry}
use mtprotor.Secret.Load.Restore.{Restored, apply_row-Restored}
use mtprotor.Secret.Persist.{
  path_max, metric_of, tsv_line, header_columns, entry_columns, render_entries, render, persist,
}
use mtprotor.Secret.State.{Store, Env, Entry, done, failed, initial}
use mtprotor.Secret.Valid.{IsEntry, IsValid}
use mtprotor.Secret.Load.Header.{read_lines-next, entry_line, header_line, read_line-header}

-- A store whose numbers can be written.
pub record Writable (s : Store) : Type 0 where
  pub valid : IsValid s
  pub next_id : s.next_id < 2 ^ 31
  pub each : All (λ e. InRange (metric_of s.metrics e.id) e) s.entries

-- An entry's secret and id do not stand among those in front of it.
module _ (s : Store) (v : IsValid s) (es : List Entry) (e : Entry) (after : List Entry)
    (whole : s.entries ≡ es ++ (e ∷ after)) where
  new_secret : count (has_secret e.secret) es ≡ 0
  unfolding count
  new_secret =
      let one : count (has_secret e.secret) (es ++ (e ∷ after)) ≤ 1 =
        rw whole at (v.one_secret e.secret) in
      ground
        (arith, one, count-append (has_secret e.secret) es (e ∷ after), same_bytes_refl e.secret)

  new_id : count (has_id e.id) es ≡ 0
  unfolding count
  new_id =
      let one : count (has_id e.id) (es ++ (e ∷ after)) ≤ 1 = rw whole at (v.one_id e.id) in
      ground (arith, one, count-append (has_id e.id) es (e ∷ after))

module _ (env : Env) (realloc_ok : env.realloc_ok ≡ true) (calloc_ok : env.calloc_ok ≡ true)
    (s : Store) (w : Writable s) where
  -- The lines of the entries behind those that were read.
  read_lines-entries :
      (es after : List Entry) (t : Store)
      → s.entries ≡ es ++ after
      → Restored s.next_id s.metrics es t
      → (u : Store) × (read_lines env (lines (render_entries s after)) t ≡ some u)
        × Restored s.next_id s.metrics s.entries u
  unfolding render_entries
  read_lines-entries es [] t whole r =
      unfold read_lines in
      unfold lines in
      (t, refl, subst (λ all. Restored s.next_id s.metrics all t) (sym (whole ∙ append-nil es)) r)
  read_lines-entries es (e ∷ after) t whole r =
      let good =
        (All-right (IsEntry s.next_id (length s.metrics)) es (e ∷ after)
          (rw whole at w.valid.each)).0 in
      let fits =
        (All-right (λ a. InRange (metric_of s.metrics a.id) a) es (e ∷ after)
          (rw whole at w.each)).0 in
      let (u, step, r') =
        apply_row-Restored env realloc_ok calloc_ok s.next_id s.metrics (length s.metrics) es e good
          fits (new_secret s w.valid es e after whole) (new_id s w.valid es e after whole) t r in
      let reads =
        read_line-entry env (metric_of s.metrics e.id) e t s.next_id (length s.metrics) good fits
        ∙ step in
      rw
        (
          entry_line s.next_id (length s.metrics) (metric_of s.metrics e.id) e
              (render_entries s after) good,
          read_lines-next env (tsv_line (entry_columns (metric_of s.metrics e.id) e))
              (lines (render_entries s after)) t u reads,
        )
        (read_lines-entries (es ++ (e ∷ [])) after u (whole ∙ sym (append_assoc es (e ∷ []) after))
          r')

  total_up-Restored :
      (t : Store)
      → Restored s.next_id s.metrics s.entries t
      → Restored s.next_id s.metrics s.entries (total_up t)
  unfolding total_up
  total_up-Restored t r = record {
    entries = r.entries;
    next_id = let p = w.valid.next_pos in ground (arith, r.next_id);
    metrics = r.metrics;
  }

  load-render :
      (t : Store)
      → t.entries ≡ []
      → t.next_id ≡ 1
      → (u : Store) × (loaded (read_lines env (lines (render s)) t) ≡ some (done, u))
        × Restored s.next_id s.metrics s.entries u
  unfolding render
  load-render t empty start =
      let (u, reads, r) =
        read_lines-entries [] s.entries (record t { next_id = s.next_id }) refl
          (record { entries = empty; next_id = refl; metrics = tt }) in
      (
        total_up u,
        rw
            (
              header_line s (render_entries s s.entries),
              read_lines-next env (tsv_line (header_columns s)) (lines (render_entries s s.entries))
                  t (record t { next_id = s.next_id })
                  (read_line-header env s t w.valid.next_pos w.next_id start),
              reads,
            )
            refl,
        total_up-Restored u r,
      )

-- What a call without an error leaves in the file.
persist_disk :
    (env : Env) (s t : Store)
    → ((text : List ℕ) → env.written text ≡ text)
    → (length s.state_file == 0) ≡ false
    → persist env s ≡ (done, t)
    → (t.state_file ≡ s.state_file) × (t.disk ≡ some (render s))
unfolding persist
persist_disk env s t all named saved =
    elim (Bool-cases (
      not env.mkdirs_ok
      || leb path_max (length s.state_file + 10)
      || not env.mkstemp_ok
      || not env.fdopen_ok
      || not env.rename_ok)) [
        | inl failing ↦
            let wrong : (failed, s) ≡ (done, t) = rw (named, failing) at saved in
            let no : failed ≡ done = ap (λ r. r.0) wrong in absurd cc
        | inr fine ↦
            let right : (done, record s { disk = some (env.written (render s)) }) ≡ (done, t) =
              rw (named, fine) at saved in
            let written : record s { disk = some (env.written (render s)) } ≡ t =
              ap (λ r. r.1) right in
            (
              sym (ap (λ u. u.state_file) written),
              sym (ap (λ u. u.disk) written) ∙ ap some (all (render s)),
            )
      ]

-- The program that starts again with the state file that it left.
abbrev pub restarted : Store → Store
restarted t = record initial { state_file = t.state_file; disk = t.disk }

-- A store whose numbers fit their C types, with ids below 2^30 and no negative time of a last use, is
-- persisted to a file on which every write succeeds, without an error, and the program starts again
-- with that file. Loading it, with memory for the arrays, comes back without an error and gives the
-- same entries in the same order, the same next id and the counters of every entry.
pub load-persist :
    (env later : Env) (s t : Store)
    → later.realloc_ok ≡ true
    → later.calloc_ok ≡ true
    → ((text : List ℕ) → env.written text ≡ text)
    → Writable s
    → (length s.state_file == 0) ≡ false
    → persist env s ≡ (done, t)
    → (u : Store) × (load_secrets_state later true (restarted t) ≡ some (done, u))
      × Restored s.next_id s.metrics s.entries u
load-persist env later s t realloc_ok calloc_ok all w named saved =
    let (file, disk) = persist_disk env s t all named saved in
    unfold load_secrets_state in
    rw (file, named, disk) (load-render later realloc_ok calloc_ok s w _ refl refl)
