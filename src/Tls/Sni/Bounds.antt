-- ===== src/Tls/Sni/Bounds.antt =====
-- The search for the server name reads within the buffer and ends, whatever the request is.
use mtprotor.Base.{
  ℕ, zero, suc, ◌+◌, ◌*◌, ◌≤◌, ◌<◌, ◌≡◌, refl, Bool, true, false, not, Option, some, List, ◌==◌,
  length, get_elem?-some, arith, Bool-cases, inl, inr,
}
use mtprotor.Tls.Sni.{
  Sni, server_name, no_name, overrun, no_fuel, length_at, with_read, check_length, unless, has_nul,
  read_server_name, read_extensions, read_sni, cipher_suites_at,
}

-- The search came to an end within the buffer.
abbrev pub ended : Sni → Bool
ended (server_name domain) = true
ended no_name = true
ended overrun = false
ended no_fuel = false

pub length_at-some :
    (xs : List ℕ) (pos : ℕ) → pos + 1 < length xs → (v : ℕ) × (length_at xs pos ≡ some v)
unfolding length_at
length_at-some xs pos h =
    let (a, at_a) = get_elem?-some xs pos (omega arith) in
    let (b, at_b) = get_elem?-some xs (pos + 1) h in (a * 256 + b, rw (at_a, at_b, length_at) refl)

has_nul-some :
    (n pos : ℕ) (xs : List ℕ) → pos + n ≤ length xs → (b : Bool) × (has_nul xs pos n ≡ some b)
unfolding has_nul
has_nul-some zero pos xs h = (false, refl)
has_nul-some (suc n) pos xs h =
    let (c, at_c) = get_elem?-some xs pos (omega arith) in
    elim (Bool-cases (c == 0)) [
      | inl nul ↦ (true, rw (at_c, nul, has_nul) refl)
      | inr other ↦
          let (b, e) = has_nul-some n (pos + 1) xs (omega arith) in (b, rw (at_c, other, has_nul) e)
    ]

with_read-ended {ℓ} :
    {A : Type ℓ} (o : Option A) (k : A → Sni)
    → ((a : A) × (o ≡ some a))
    → ((a : A) → ended (k a) ≡ true)
    → ended (with_read o k) ≡ true
with_read-ended o k (a, e) h = rw e (h a)

check_length-ended :
    (end len : ℕ) (k : Sni) → (end ≤ len → ended k ≡ true) → ended (check_length end len k) ≡ true
check_length-ended end len k h = ground (arith, h)

unless-ended : (b : Bool) (k : Sni) → (b ≡ false → ended k ≡ true) → ended (unless b k) ≡ true
unless-ended true k h = refl
unless-ended false k h = h refl

server_name-ended :
    (request : List ℕ) (len extension_length pos : ℕ)
    → len ≤ length request
    → pos + extension_length ≤ len
    → ended (read_server_name request len extension_length pos) ≡ true
unfolding read_server_name
server_name-ended request len n pos fits inside = check_length-ended (pos + 5) len _ (λ five.
    with_read-ended _ _ (length_at-some request pos (omega arith)) (λ inner_length.
      unless-ended (not (inner_length + 2 == n)) _ (λ inner_fits.
        with_read-ended _ _ (get_elem?-some request (pos + 2) (omega arith)) (λ kind.
          unless-ended (not (kind == 0)) _ (λ is_host.
            with_read-ended _ _ (length_at-some request (pos + 3) (omega arith)) (λ domain_length.
              unless-ended (not (domain_length + 5 == n)) _ (λ domain_fits.
                let size : domain_length + 5 ≡ n = ground arith in
                with_read-ended _ _ (has_nul-some domain_length (pos + 5) request (omega arith))
                  (λ nul. unless-ended nul _ (λ no_nul. refl)))))))))

extensions-ended :
    (fuel : ℕ) (request : List ℕ) (len pos : ℕ)
    → len ≤ length request
    → pos ≤ len
    → len < pos + fuel
    → ended (read_extensions fuel request len pos) ≡ true
unfolding read_extensions
extensions-ended zero request len pos fits inside enough = absurd (omega arith)
extensions-ended (suc fuel) request len pos fits inside enough =
    check_length-ended (pos + 4) len _ (λ four.
      with_read-ended _ _ (length_at-some request pos (omega arith)) (λ id.
        with_read-ended _ _ (length_at-some request (pos + 2) (omega arith)) (λ n.
          check_length-ended (pos + 4 + n) len _ (λ body. elim (Bool-cases (id == 0)) [
            | inl sni ↦ rw sni (server_name-ended request len n (pos + 4) fits body)
            | inr other ↦
                rw other (extensions-ended fuel request len (pos + 4 + n) fits body (omega arith))
          ]))))

-- The search for the server name in the first `len` bytes of a buffer of at least as many bytes never
-- reads past the end of the buffer, and ends with a name or without one.
pub read_sni-ended :
    (request : List ℕ) (len : ℕ) → len ≤ length request → ended (read_sni request len) ≡ true
unfolding read_sni
read_sni-ended request len fits = check_length-ended (cipher_suites_at + 2) len _ (λ two.
    with_read-ended _ _ (length_at-some request cipher_suites_at (omega arith)) (λ suites.
      check_length-ended (cipher_suites_at + 2 + (suites + 4)) len _ (λ start.
        extensions-ended len request len (cipher_suites_at + 2 + (suites + 4)) fits start
          (omega arith))))
