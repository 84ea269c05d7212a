-- ===== src/Tls/Domain.antt =====
-- The hash table of proxied domains: get_domain_info_bucket, get_domain_info and
-- tcp_rpc_add_proxy_domain of net/net-tcp-rpc-ext-server.c.
use mtprotor.Base.{
  ℕ, ◌+◌, ◌*◌, ◌%◌, ◌^◌, ◌≡◌, refl, sym, ap, Bool, true, false, Option, none, some, List, [], ◌∷◌,
  ◌==◌, if◌then◌else◌, same_bytes, same_bytes_eq, arith, Bool-cases, inl, inr,
}
use mtprotor.Base.Search.{find?}

-- struct domain_info, less what is learnt about the domain's server later and the link, which is the
-- list below. A name has no NUL.
pub record DomainInfo : Type 0 where
  pub domain : List ℕ

-- `bucket i` is the chain from domains[i].
pub record Domains : Type 0 where
  pub bucket : ℕ → List DomainInfo
  pub default_domain_info : Option DomainInfo
  pub allow_only_tls : Bool

-- DOMAIN_HASH_MOD
abbrev pub domain_hash_mod : ℕ
domain_hash_mod = 257

unfoldable pub hash_loop : ℕ → List ℕ → ℕ
hash_loop hash [] = hash
hash_loop hash (c ∷ domain) = hash_loop ((hash * 239017 + c) % 2 ^ 32) domain

unfoldable pub domain_bucket : List ℕ → ℕ
domain_bucket domain = hash_loop 0 domain % domain_hash_mod

-- strlen (info->domain) == len && memcmp (domain, info->domain, len) == 0
abbrev pub is_domain : List ℕ → DomainInfo → Bool
is_domain domain info = same_bytes domain info.domain

unfoldable pub get_domain_info : List ℕ → Domains → Option DomainInfo
get_domain_info domain t = find? (is_domain domain) (t.bucket (domain_bucket domain))

-- The allocations are asserted.
unfoldable pub add_proxy_domain : List ℕ → Domains → Domains
add_proxy_domain domain t = record {
  bucket = λ i. if i == domain_bucket domain then info ∷ t.bucket i else t.bucket i;
  default_domain_info = if t.allow_only_tls then t.default_domain_info else some info;
  allow_only_tls = true;
}
  where
    info : DomainInfo
    info = record { domain = domain }

-- The static initial state.
abbrev pub no_domains : Domains
no_domains = record { bucket = λ i. []; default_domain_info = none; allow_only_tls = false }

-- The calls of tcp_rpc_add_proxy_domain, the latest first.
abbrev pub add_all : List (List ℕ) → Domains
add_all [] = no_domains
add_all (domain ∷ earlier) = add_proxy_domain domain (add_all earlier)

abbrev pub named : List ℕ → DomainInfo
named domain = record { domain = domain }

-- The abstract table: the names added.
abbrev pub is_one_of : List ℕ → List (List ℕ) → Bool
is_one_of domain [] = false
is_one_of domain (d ∷ ds) = if same_bytes domain d then true else is_one_of domain ds

-- The name that was added first.
abbrev pub first_of : List (List ℕ) → Option DomainInfo
first_of [] = none
first_of (d ∷ []) = some (named d)
first_of (d ∷ e ∷ ds) = first_of (e ∷ ds)

-- A domain is found exactly when it was added, under its own name.
pub get_domain_info_lem :
    (domain : List ℕ) (added : List (List ℕ))
    → get_domain_info domain (add_all added)
      ≡ (if is_one_of domain added then some (named domain) else none)
unfolding get_domain_info add_proxy_domain find?
get_domain_info_lem domain [] = refl
get_domain_info_lem domain (d ∷ added) = elim (Bool-cases (same_bytes domain d)) [
  | inl same ↦
      let e : domain ≡ d = same_bytes_eq domain d same in
      let here : (domain_bucket domain == domain_bucket d) ≡ true =
        ground (arith, ap domain_bucket e) in
      rw (here, same) (ap (λ x. some (named x)) (sym e))
  | inr other ↦ elim (Bool-cases (domain_bucket domain == domain_bucket d)) [
    | inl collision ↦ rw (collision, other) (get_domain_info_lem domain added)
    | inr apart ↦ rw (apart, other) (get_domain_info_lem domain added)
  ]
]
