-- ===== src/Secret/Operations.antt =====
-- Every call that changes the secret store, as one type, and the states that calls can reach.
use mtprotor.Base.{ℕ, ◌≡◌, Bool, true, Option, none, some, List, Option-cases, inl, inr, modify}
use mtprotor.Base.Int.{ℤ}
use mtprotor.Base.Remove.{swap_remove}
use mtprotor.Secret.Add.{has_secret, find_idx}
use mtprotor.Secret.Command.{
  cmd_add, at_secret, cmd_remove, switched, cmd_set_enabled, updated, cmd_update,
}
use mtprotor.Secret.Hex.{secret16_from_hex}
use mtprotor.Secret.Hex.Laws.{IsSecret, from_hex_sound}
use mtprotor.Secret.Preserve.{persist-IsValid, switched-Keeps, updated-Keeps}
use mtprotor.Secret.State.{Store, Env, Entry}
use mtprotor.Secret.Steps.{add_locked-IsValid}
use mtprotor.Secret.Valid.{IsValid, modify-Good, remove-Good}

from_hex-IsSecret :
    (hex : Option (List ℕ)) {secret : List ℕ}
    → secret16_from_hex hex ≡ some secret
    → IsSecret secret
from_hex-IsSecret none e = unfold secret16_from_hex in cc
from_hex-IsSecret (some hex) e = (from_hex_sound hex e).0

pub cmd_add-IsValid :
    (env : Env) (hex label : Option (List ℕ)) (t : ℤ) (b : Bool) (s : Store)
    → IsValid s
    → IsValid (cmd_add env hex label t b s).1
unfolding cmd_add
cmd_add-IsValid env hex label t b s v = elim (Option-cases (secret16_from_hex hex)) [
  | inl bad ↦ rw (bad, cmd_add) v
  | inr (secret, e) ↦
      rw (e, cmd_add)
        (add_locked-IsValid env label t b secret true true s (from_hex-IsSecret hex e) v)
]

pub at_secret-IsValid :
    (env : Env) (hex : Option (List ℕ)) (change : ℕ → List Entry → List Entry) (s : Store)
    → ((secret : List ℕ) (i : ℕ)
        → find_idx secret s ≡ some i
        → IsValid (record s { entries = change i s.entries }))
    → IsValid s
    → IsValid (at_secret env hex change s).1
unfolding at_secret
at_secret-IsValid env hex change s keep v = elim (Option-cases (secret16_from_hex hex)) [
  | inl bad ↦ rw (bad, at_secret) v
  | inr (secret, e) ↦ elim (Option-cases (find_idx secret s)) [
    | inl absent ↦ rw (e, absent, at_secret) v
    | inr (i, here) ↦
        rw (e, here, at_secret)
          (persist-IsValid env (record s { entries = change i s.entries }) (keep secret i here))
  ]
]

module _ (env : Env) (s : Store) (v : IsValid s) where
  pub cmd_remove-IsValid : (hex : Option (List ℕ)) → IsValid (cmd_remove env hex s).1
  unfolding cmd_remove
  cmd_remove-IsValid hex =
      at_secret-IsValid env hex (λ i es. swap_remove es i) s
        (λ secret i here. remove-Good v (has_secret secret) i here) v

  pub cmd_set_enabled-IsValid :
      (hex : Option (List ℕ)) (b : Bool) → IsValid (cmd_set_enabled env hex b s).1
  unfolding cmd_set_enabled
  cmd_set_enabled-IsValid hex b =
      at_secret-IsValid env hex (λ i es. modify es i (switched env b)) s
        (λ secret i here. modify-Good v i (switched env b) (switched-Keeps env b)) v

  pub cmd_update-IsValid :
      (hex : Option (List ℕ)) (label : Option (Option (List ℕ))) (t : Option ℤ) (b : Option Bool)
      → IsValid (cmd_update env hex label t b s).1
  unfolding cmd_update
  cmd_update-IsValid hex label t b =
      at_secret-IsValid env hex (λ i es. modify es i (updated env label t b)) s
        (λ secret i here. modify-Good v i (updated env label t b) (updated-Keeps env label t b)) v
