-- ===== src/Admin/Parses.antt =====
-- Requests as lines, and the reading of such lines.
use mtprotor.Admin.Line.{
  is_blank, is_newline, is_equals, after_equals, Pair, pair_of, pairs_of, Request, request_of,
}
use mtprotor.Base.{
  ℕ, zero, suc, ◌≤◌, ◌≡◌, refl, ap, ◌∙◌, Bool, false, ◌||◌, some, List, [], ◌∷◌, ◌++◌, map, ◌==◌,
  All, All-append, All-map, length, arith, append_assoc,
}
use mtprotor.Base.Fields.{split_on, tokens, drop_empty, before_first}
use mtprotor.Base.Fields.Laws.{Fails, split_on-first, split_on-last, before_first-cut}

abbrev pub is_break : ℕ → Bool
is_break c = is_blank c || is_newline c

-- A text without blanks and ends of lines.
pub record IsWord (w : List ℕ) : Type 0 where
  pub full : (length w == 0) ≡ false
  pub unbroken : All (Fails is_break) w

pub record IsPair (p : Pair) : Type 0 where
  pub key : IsWord p.key
  pub no_equals : All (Fails is_equals) p.key
  pub value : IsWord p.value

pub record IsRequest (r : Request) : Type 0 where
  pub command : IsWord r.command
  pub pairs : All IsPair r.pairs
  pub room : length r.pairs ≤ 64

unfoldable pub pair_text : Pair → List ℕ
pair_text p = p.key ++ (b'=' ∷ p.value)

unfoldable spaced : List ℕ → List (List ℕ) → List ℕ
spaced w [] = w
spaced w (v ∷ ws) = w ++ (32 ∷ spaced v ws)

-- The words of a request with one space between them, and a newline.
unfoldable pub print_request : Request → List ℕ
unfolding spaced
print_request r = spaced r.command (map pair_text r.pairs) ++ (10 ∷ [])

word-Fails :
    (p : ℕ → Bool)
    → ((c : ℕ) → is_break c ≡ false → p c ≡ false)
    → (w : List ℕ) → IsWord w
    → All (Fails p) w
word-Fails p other w v = All-map (Fails is_break) (Fails p) (λ c h. other c h) w v.unbroken

spaced-Fails :
    (w : List ℕ) (ws : List (List ℕ)) → All IsWord (w ∷ ws) → All (Fails is_newline) (spaced w ws)
unfolding spaced
spaced-Fails w [] (v, vs) = word-Fails is_newline (λ c h. ground arith) w v
spaced-Fails w (u ∷ ws) (v, vs) =
    All-append (Fails is_newline) w (32 ∷ spaced u ws)
      (word-Fails is_newline (λ c h. ground arith) w v) (refl, spaced-Fails u ws vs)

split_on-spaced :
    (w : List ℕ) (ws : List (List ℕ))
    → All IsWord (w ∷ ws)
    → split_on is_blank (spaced w ws) ≡ w ∷ ws
unfolding spaced
split_on-spaced w [] (v, vs) =
    split_on-last is_blank w (word-Fails is_blank (λ c h. ground arith) w v)
split_on-spaced w (u ∷ ws) (v, vs) =
    split_on-first is_blank w 32 (spaced u ws) (word-Fails is_blank (λ c h. ground arith) w v) refl
    ∙ ap (λ t. w ∷ t) (split_on-spaced u ws vs)

drop_empty-words : (ws : List (List ℕ)) → All IsWord ws → drop_empty ws ≡ ws
drop_empty-words [] h = refl
drop_empty-words ([] ∷ ws) (v, vs) = absurd (let f = v.full in ground (arith, f))
drop_empty-words ((c ∷ w) ∷ ws) (v, vs) = ap (λ t. (c ∷ w) ∷ t) (drop_empty-words ws vs)

tokens-spaced :
    (w : List ℕ) (ws : List (List ℕ)) (rest : List ℕ)
    → All IsWord (w ∷ ws)
    → tokens is_blank (before_first is_newline (spaced w ws ++ (10 ∷ rest))) ≡ w ∷ ws
unfolding tokens
tokens-spaced w ws rest v =
    ap (λ t. drop_empty (split_on is_blank t))
      (before_first-cut is_newline (spaced w ws) 10 rest (spaced-Fails w ws v) refl)
    ∙ ap drop_empty (split_on-spaced w ws v)
    ∙ drop_empty-words (w ∷ ws) v

after_equals-cut :
    (k v : List ℕ) → All (Fails is_equals) k → after_equals (k ++ (b'=' ∷ v)) ≡ some v
unfolding after_equals
after_equals-cut [] v h = refl
after_equals-cut (c ∷ k) v (other, h) = rw other (after_equals-cut k v h)

is_cons : (w : List ℕ) → (length w == 0) ≡ false → (c : ℕ) × (s : List ℕ) × (w ≡ c ∷ s)
is_cons [] h = absurd (ground (arith, h))
is_cons (c ∷ s) h = (c, s, refl)

-- The reading of a token whose two parts are not empty.
pair_of-parts :
    (token k v : List ℕ)
    → after_equals token ≡ some v
    → before_first is_equals token ≡ k
    → (length k == 0) ≡ false
    → (length v == 0) ≡ false
    → pair_of token ≡ some (record { key = k; value = v })
unfolding pair_of
pair_of-parts token k v behind front k_full v_full =
    let (c, s, e) = is_cons k k_full in
    let (d, t, f) = is_cons v v_full in rw (pair_of, behind ∙ ap some f, front ∙ e, e, f) refl

pair_of-pair_text : (p : Pair) → IsPair p → pair_of (pair_text p) ≡ some p
unfolding pair_text
pair_of-pair_text p v =
    pair_of-parts (p.key ++ (b'=' ∷ p.value)) p.key p.value
      (after_equals-cut p.key p.value v.no_equals)
      (before_first-cut is_equals p.key b'=' p.value v.no_equals refl) v.key.full v.value.full

pairs_of-map :
    (room : ℕ) (ps : List Pair)
    → length ps ≤ room
    → All IsPair ps
    → pairs_of room (map pair_text ps) ≡ ps
unfolding pairs_of
pairs_of-map zero [] h v = refl
pairs_of-map zero (p ∷ ps) h v = absurd (omega arith)
pairs_of-map (suc room) [] h v = refl
pairs_of-map (suc room) (p ∷ ps) h (v, vs) =
    rw (pair_of-pair_text p v, pairs_of) (ap (λ t. p ∷ t) (pairs_of-map room ps (omega arith) vs))

pair_text-IsWord : (p : Pair) → IsPair p → IsWord (pair_text p)
unfolding pair_text
pair_text-IsWord p v =
    let (c, s, e) = is_cons p.key v.key.full in
    record {
      full = rw e (ground arith);
      unbroken =
          All-append (Fails is_break) p.key (b'=' ∷ p.value) v.key.unbroken
            (refl, v.value.unbroken);
    }

words-IsWord : (ps : List Pair) → All IsPair ps → All IsWord (map pair_text ps)
words-IsWord [] h = tt
words-IsWord (p ∷ ps) (v, vs) = (pair_text-IsWord p v, words-IsWord ps vs)

request_of-tokens :
    (line command : List ℕ) (words : List (List ℕ))
    → tokens is_blank (before_first is_newline line) ≡ command ∷ words
    → request_of line ≡ some (record { command = command; pairs = pairs_of 64 words })
unfolding request_of
request_of-tokens line command words h = rw (request_of, h) refl

-- A request of a command and at most 64 pairs, whose words are not empty and have no blanks in them
-- and whose keys have no `=`, is read from the line that it is printed as, whatever follows that line.
pub request_of-print :
    (r : Request) (rest : List ℕ) → IsRequest r → request_of (print_request r ++ rest) ≡ some r
unfolding print_request
request_of-print r rest v =
    ap request_of (append_assoc (spaced r.command (map pair_text r.pairs)) (10 ∷ []) rest)
    ∙ request_of-tokens (spaced r.command (map pair_text r.pairs) ++ (10 ∷ rest)) r.command
        (map pair_text r.pairs)
        (tokens-spaced r.command (map pair_text r.pairs) rest
          (v.command, words-IsWord r.pairs v.pairs))
    ∙ ap (λ ps. some (record { command = r.command; pairs = ps }))
        (pairs_of-map 64 r.pairs v.room v.pairs)
