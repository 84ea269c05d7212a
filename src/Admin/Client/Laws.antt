-- ===== src/Admin/Client/Laws.antt =====
-- The buffer of ext_admin_handle_client, and the invariant of the secret store.
use mtprotor.Admin.Client.{is_complete, buffer_room, collect}
use mtprotor.Base.{
  ℕ, zero, suc, ◌-◌, ◌≤◌, ◌≡◌, refl, sym, ap, ◌∙◌, true, ◌||◌, List, [], ◌∷◌, ◌++◌, leb, ◌==◌,
  arith, length, take, drop, append_assoc, length-append, length-take, Bool-cases, inl, inr,
}
use mtprotor.Base.Fields.{before_first, is_nul}

-- All that the client sends.
unfoldable pub stream : List (List ℕ) → List ℕ
stream [] = []
stream (piece ∷ rest) = piece ++ stream rest

-- The buffer holds a beginning of the stream.
pub record Begins (buf whole : List ℕ) : Type 0 where
  pub fits : length buf ≤ buffer_room
  pub rest : List ℕ
  pub shape : buf ++ rest ≡ whole

append-take : (n : ℕ) (s : List ℕ) → take n s ++ drop n s ≡ s
append-take zero s = refl
append-take (suc n) [] = refl
append-take (suc n) (c ∷ s) = ap (λ t. c ∷ t) (append-take n s)

-- A piece that fits is taken whole.
take_all : (n : ℕ) (s : List ℕ) → length s ≤ n → take n s ≡ s
take_all zero [] h = refl
take_all zero (c ∷ s) h = absurd (omega arith)
take_all (suc n) [] h = refl
take_all (suc n) (c ∷ s) h = ap (λ t. c ∷ t) (take_all n s (omega arith))

extended-fits :
    (buf piece : List ℕ)
    → length buf ≤ buffer_room
    → length (buf ++ take (buffer_room - length buf) piece) ≤ buffer_room
extended-fits buf piece h = omega (
  arith,
  length-append buf (take (buffer_room - length buf) piece),
  length-take (buffer_room - length buf) piece,
)

-- The buffer is full once it did not take a piece whole.
collect-full :
    (pieces : List (List ℕ)) (buf : List ℕ) → buffer_room ≤ length buf → collect pieces buf ≡ buf
unfolding collect
collect-full [] buf h = refl
collect-full (piece ∷ rest) buf h =
    let full : (leb buffer_room (length buf) || length piece == 0) ≡ true = ground arith in
    rw full refl

module _ (buf piece : List ℕ) (rest : List (List ℕ)) where
  abbrev got : List ℕ
  got = buf ++ take (buffer_room - length buf) piece

  got-Begins : length buf ≤ buffer_room → Begins got (buf ++ (piece ++ stream rest))
  got-Begins h = record {
    fits = extended-fits buf piece h;
    rest = drop (buffer_room - length buf) piece ++ stream rest;
    shape =
        append_assoc buf (take (buffer_room - length buf) piece)
          (drop (buffer_room - length buf) piece ++ stream rest)
        ∙ ap (λ t. buf ++ t)
            (sym (
                append_assoc (take (buffer_room - length buf) piece)
                  (drop (buffer_room - length buf) piece) (stream rest))
              ∙ ap (λ t. t ++ stream rest) (append-take (buffer_room - length buf) piece));
  }

-- What is collected behind `buf` is `buf` and a beginning of what the client sends, and fits the
-- buffer with a NUL behind it.
pub collect-Begins :
    (pieces : List (List ℕ)) (buf : List ℕ)
    → length buf ≤ buffer_room
    → Begins (collect pieces buf) (buf ++ stream pieces)
unfolding collect stream
collect-Begins [] buf h = record { fits = h; rest = []; shape = refl }
collect-Begins (piece ∷ rest) buf h =
    elim (Bool-cases (leb buffer_room (length buf) || length piece == 0)) [
      | inl over ↦
          rw (over, collect) (record { fits = h; rest = piece ++ stream rest; shape = refl })
      | inr there ↦
          elim (Bool-cases (
            is_complete (before_first is_nul (got buf piece rest)) (length (got buf piece rest)))) [
              | inl whole ↦ rw (there, whole, collect) (got-Begins buf piece rest h)
              | inr part ↦ elim (Bool-cases (leb (length piece) (buffer_room - length buf))) [
                | inl taken ↦
                    let all : take (buffer_room - length buf) piece ≡ piece =
                      take_all (buffer_room - length buf) piece (ground arith) in
                    let later =
                      collect-Begins rest (got buf piece rest) (extended-fits buf piece h) in
                    rw (there, part, collect)
                      (record {
                        fits = later.fits;
                        rest = later.rest;
                        shape =
                            later.shape
                            ∙ ap (λ t. (buf ++ t) ++ stream rest) all
                            ∙ append_assoc buf piece (stream rest);
                      })
                | inr cut ↦
                    let full : buffer_room ≤ length (got buf piece rest) = ground (
                      arith,
                      length-append buf (take (buffer_room - length buf) piece),
                      length-take (buffer_room - length buf) piece,
                    ) in
                    rw (there, part, collect-full rest (got buf piece rest) full, collect)
                      (got-Begins buf piece rest h)
              ]
            ]
    ]
