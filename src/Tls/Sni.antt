-- ===== src/Tls/Sni.antt =====
-- The search for the server name in a ClientHello: read_length and get_sni_domain_info of
-- net/net-tcp-rpc-ext-server.c.
pub mod Bounds
pub mod Layout
pub mod Finds
use mtprotor.Base.{
  ℕ, zero, suc, ◌+◌, ◌*◌, Bool, true, false, not, Option, none, some, List, ltb, ◌==◌,
  if◌then◌else◌, get_elem?, take, drop,
}
use mtprotor.Tls.Domain.{DomainInfo, Domains, get_domain_info}

-- What the search makes of a request: the name in it, nothing, a read past the end of the buffer, or
-- no fuel left.
pub data Sni : Type 0 where
  server_name : List ℕ → Sni
  no_name : Sni
  overrun : Sni
  no_fuel : Sni

-- read_length, at `pos`.
unfoldable pub length_at : List ℕ → ℕ → Option ℕ
length_at response pos = elim (get_elem? response pos) [
  | none ↦ none
  | some high ↦ elim (get_elem? response (pos + 1)) [
    | none ↦ none
    | some low ↦ some (high * 256 + low)
  ]
]

abbrev pub with_read {ℓ} : {A : Type ℓ} → Option A → (A → Sni) → Sni
with_read none k = overrun
with_read (some v) k = k v

-- CHECK_LENGTH
abbrev pub check_length : ℕ → ℕ → Sni → Sni
check_length end len k = if ltb len end then no_name else k

abbrev pub unless : Bool → Sni → Sni
unless b k = if b then no_name else k

-- The loop over the name: whether one of the `n` bytes from `pos` on is NUL.
unfoldable pub has_nul : List ℕ → ℕ → ℕ → Option Bool
has_nul request pos zero = some false
has_nul request pos (suc n) = elim (get_elem? request pos) [
  | none ↦ none
  | some c ↦ elim (c == 0) [ true ↦ some true | false ↦ has_nul request (pos + 1) n ]
]

-- From the body of the extension on, which is at `pos` and of `extension_length` bytes.
unfoldable pub read_server_name : List ℕ → ℕ → ℕ → ℕ → Sni
read_server_name request len extension_length pos = check_length (pos + 5) len (
    with_read (length_at request pos) (λ inner_length.
      unless (not (inner_length + 2 == extension_length)) (
        with_read (get_elem? request (pos + 2)) (λ kind. unless (not (kind == 0)) (
          with_read (length_at request (pos + 3)) (λ domain_length.
            unless (not (domain_length + 5 == extension_length)) (
              with_read (has_nul request (pos + 5) domain_length) (λ nul.
                unless nul (server_name (take domain_length (drop (pos + 5) request)))))))))))

-- The loop over the extensions.
unfoldable pub read_extensions : ℕ → List ℕ → ℕ → ℕ → Sni
read_extensions zero request len pos = no_fuel
read_extensions (suc fuel) request len pos = check_length (pos + 4) len (
    with_read (length_at request pos) (λ extension_id.
      with_read (length_at request (pos + 2)) (λ extension_length.
        check_length (pos + 4 + extension_length) len (elim (extension_id == 0) [
          | true ↦ read_server_name request len extension_length (pos + 4)
          | false ↦ read_extensions fuel request len (pos + 4 + extension_length)
        ]))))

-- 11 + 32 + 1 + 32
abbrev pub cipher_suites_at : ℕ
cipher_suites_at = 76

unfoldable pub read_sni : List ℕ → ℕ → Sni
read_sni request len = check_length (cipher_suites_at + 2) len (
    with_read (length_at request cipher_suites_at) (λ cipher_suites_length.
      check_length (cipher_suites_at + 2 + (cipher_suites_length + 4)) len
        (read_extensions len request len (cipher_suites_at + 2 + (cipher_suites_length + 4)))))

abbrev pub domain_of_sni : Domains → Sni → Option DomainInfo
domain_of_sni t (server_name domain) = get_domain_info domain t
domain_of_sni t no_name = none
domain_of_sni t overrun = none
domain_of_sni t no_fuel = none

unfoldable pub get_sni_domain_info : Domains → List ℕ → ℕ → Option DomainInfo
get_sni_domain_info t request len = domain_of_sni t (read_sni request len)
