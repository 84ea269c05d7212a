-- ===== src/Tls/Sni/Layout.antt =====
-- The layout of a ClientHello as a client writes it, and reads at a known place of it.
use mtprotor.Base.{
  ℕ, ◌+◌, ◌/◌, ◌%◌, ◌≡◌, ◌≢◌, refl, sym, ap, ◌∙◌, false, some, List, [], ◌∷◌, ◌++◌, ◌==◌, length,
  get_elem?, get_elem?_append, take, drop, take-append, drop-append, length-append, append_assoc,
  All, arith,
}
use mtprotor.Tls.Sni.{length_at, has_nul}

-- A two-byte number, its high byte first.
abbrev pub bytes16 : ℕ → List ℕ
bytes16 n = n / 256 ∷ n % 256 ∷ []

-- The bytes `tail` stand in the request from `pos` to its end.
pub record At (request : List ℕ) (pos : ℕ) (tail : List ℕ) : Type 0 where
  pub before : List ℕ
  pub whole : request ≡ before ++ tail
  pub place : length before ≡ pos

pub At-skip :
    (request : List ℕ) (pos next : ℕ) (xs tail : List ℕ)
    → At request pos (xs ++ tail)
    → pos + length xs ≡ next
    → At request next tail
At-skip request pos next xs tail a e = record {
  before = a.before ++ xs;
  whole = a.whole ∙ sym (append_assoc a.before xs tail);
  place = omega (arith, length-append a.before xs, a.place, e);
}

pub At-elem :
    (request : List ℕ) (pos c : ℕ) (tail : List ℕ)
    → At request pos (c ∷ tail)
    → get_elem? request pos ≡ some c
At-elem request pos c tail a = rw (a.whole, ← a.place) (get_elem?_append a.before (c ∷ tail))

pub At-length_at :
    (request : List ℕ) (pos n : ℕ) (tail : List ℕ)
    → At request pos (bytes16 n ++ tail)
    → length_at request pos ≡ some n
unfolding length_at
At-length_at request pos n tail a =
    let high = At-elem request pos (n / 256) (n % 256 ∷ tail) a in
    let low =
      At-elem request (pos + 1) (n % 256) tail
        (At-skip request pos (pos + 1) (n / 256 ∷ []) (n % 256 ∷ tail) a refl) in
    rw (high, low, length_at) (ap some (omega arith))

pub At-size :
    (request : List ℕ) (pos : ℕ) (tail : List ℕ)
    → At request pos tail
    → length request ≡ pos + length tail
At-size request pos tail a = rw (a.whole, ← a.place) (length-append a.before tail)

pub At-slice :
    (request : List ℕ) (pos : ℕ) (xs tail : List ℕ)
    → At request pos (xs ++ tail)
    → take (length xs) (drop pos request) ≡ xs
At-slice request pos xs tail a =
    rw (a.whole, ← a.place, drop-append a.before (xs ++ tail)) (take-append xs tail)

pub At-has_nul :
    (request : List ℕ) (pos : ℕ) (xs tail : List ℕ)
    → At request pos (xs ++ tail)
    → All (λ c. c ≢ 0) xs
    → has_nul request pos (length xs) ≡ some false
unfolding has_nul
At-has_nul request pos [] tail a h = refl
At-has_nul request pos (c ∷ xs) tail a h =
    let elem = At-elem request pos c (xs ++ tail) a in
    let next = At-skip request pos (pos + 1) (c ∷ []) (xs ++ tail) a refl in
    let other : (c == 0) ≡ false = let ne : c ≢ 0 = h.0 in ground arith in
    rw (elem, other, has_nul) (At-has_nul request (pos + 1) xs tail next h.1)

-- An extension with its number, and the body of the one that names the server.
pub record Extension : Type 0 where
  pub id : ℕ
  pub body : List ℕ

abbrev pub encode : Extension → List ℕ → List ℕ
encode x tail = bytes16 x.id ++ (bytes16 (length x.body) ++ (x.body ++ tail))

abbrev pub encode_all : List Extension → List ℕ → List ℕ
encode_all [] tail = tail
encode_all (x ∷ xs) tail = encode x (encode_all xs tail)

abbrev pub sni_body : List ℕ → List ℕ → List ℕ
sni_body domain tail =
    bytes16 (length domain + 3) ++ (0 ∷ (bytes16 (length domain) ++ (domain ++ tail)))

abbrev pub encode_sni : List ℕ → List ℕ → List ℕ
encode_sni domain tail = bytes16 0 ++ (bytes16 (length domain + 5) ++ sni_body domain tail)
