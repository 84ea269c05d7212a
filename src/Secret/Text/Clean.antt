-- ===== src/Secret/Text/Clean.antt =====
-- What the sanitizers guarantee: bounded length, safe characters, and no further change.
use mtprotor.Base.{
  ℕ, zero, suc, ◌≤◌, ◌≡◌, refl, ap, Option, none, some, List, [], ◌∷◌, arith, length, All,
  Option-cases, inl, inr,
}
use mtprotor.Secret.Text.{
  clean, label_char, ip_char, label_room, ip_room, sanitize_label, sanitize_ip,
}

-- A character that `keep` passes unchanged.
abbrev pub Kept : (ℕ → Option ℕ) → ℕ → Type 0
Kept keep c = keep c ≡ some c

module _ (keep : ℕ → Option ℕ) where
  clean-le : (room : ℕ) (s : List ℕ) → length (clean keep room s) ≤ room
  unfolding clean
  clean-le zero s = omega arith
  clean-le (suc room) [] = omega arith
  clean-le (suc room) (c ∷ s) = ground (arith, clean-le (suc room) s, clean-le room s)

  -- The output holds kept characters alone, if what is written for a character is kept.
  clean-Kept :
      ((c d : ℕ) → keep c ≡ some d → Kept keep d)
      → (room : ℕ) (s : List ℕ) → All (Kept keep) (clean keep room s)
  unfolding clean
  clean-Kept stable zero s = tt
  clean-Kept stable (suc room) [] = tt
  clean-Kept stable (suc room) (c ∷ s) = elim (Option-cases (keep c)) [
    | inl e ↦ rw (e, clean, All) (clean-Kept stable (suc room) s)
    | inr (d, e) ↦ rw (e, clean, All) (stable c d e, clean-Kept stable room s)
  ]

  pub clean_fixed :
      (room : ℕ) (s : List ℕ) → length s ≤ room → All (Kept keep) s → clean keep room s ≡ s
  unfolding clean
  clean_fixed zero [] h k = refl
  clean_fixed zero (c ∷ s) h k = absurd (omega arith)
  clean_fixed (suc room) [] h k = refl
  clean_fixed (suc room) (c ∷ s) h (k, ks) =
      rw (k, clean) (ap (λ t. c ∷ t) (clean_fixed room s (omega arith) ks))

label_char_stable : (c d : ℕ) → label_char c ≡ some d → label_char d ≡ some d
label_char_stable c d h = ground arith

ip_char_stable : (c d : ℕ) → ip_char c ≡ some d → ip_char d ≡ some d
ip_char_stable c d h = ground arith

-- A stored label: at most 95 characters, each a letter, a digit or one of `._-:`.
pub record IsLabel (s : List ℕ) : Type 0 where
  pub short : length s ≤ label_room
  pub clean_text : All (Kept label_char) s

pub record IsIp (s : List ℕ) : Type 0 where
  pub short : length s ≤ ip_room
  pub clean_text : All (Kept ip_char) s

pub sanitize_label-IsLabel : (s : Option (List ℕ)) → IsLabel (sanitize_label s)
unfolding sanitize_label
sanitize_label-IsLabel none = record { short = omega arith; clean_text = tt }
sanitize_label-IsLabel (some s) = record {
  short = clean-le label_char label_room s;
  clean_text = clean-Kept label_char label_char_stable label_room s;
}

pub sanitize_ip-IsIp : (s : Option (List ℕ)) → IsIp (sanitize_ip s)
unfolding sanitize_ip
sanitize_ip-IsIp none = record { short = omega arith; clean_text = tt }
sanitize_ip-IsIp (some s) = record {
  short = clean-le ip_char ip_room s;
  clean_text = clean-Kept ip_char ip_char_stable ip_room s;
}

-- A label that is already clean is stored as it is.
pub sanitize_label_fixed : (s : List ℕ) → IsLabel s → sanitize_label (some s) ≡ s
unfolding sanitize_label
sanitize_label_fixed s v = clean_fixed label_char label_room s v.short v.clean_text

pub sanitize_ip_fixed : (s : List ℕ) → IsIp s → sanitize_ip (some s) ≡ s
unfolding sanitize_ip
sanitize_ip_fixed s v = clean_fixed ip_char ip_room s v.short v.clean_text
