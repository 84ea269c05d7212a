-- ===== src/Secret/Preserve.antt =====
-- Every operation on the secret store keeps its invariant.
use mtprotor.Base.{
  ℕ, ◌+◌, ◌≤◌, ◌<◌, ◌≡◌, refl, sym, Bool, true, false, Option, none, some, List, [], arith,
  Bool-cases, inl, inr, subst,
}
use mtprotor.Base.Int.{ℤ}
use mtprotor.Secret.Add.{finish, refreshed, fresh_entry, is_some_text}
use mtprotor.Secret.Command.{switched, updated}
use mtprotor.Secret.Hex.Laws.{IsSecret}
use mtprotor.Secret.Persist.{persist}
use mtprotor.Secret.State.{Store, Env, Entry}
use mtprotor.Secret.Text.{sanitize_ip}
use mtprotor.Secret.Text.Clean.{IsLabel, sanitize_label-IsLabel, sanitize_ip-IsIp}
use mtprotor.Secret.Valid.{IsEntry, IsValid, Keeps}

-- Writing the state file changes nothing in memory.
pub persist_frame :
    (env : Env) (s : Store) → (persist env s).1 ≡ record s { disk = (persist env s).1.disk }
unfolding persist
persist_frame env s = ground arith

pub persist-IsValid : (env : Env) (s : Store) → IsValid s → IsValid (persist env s).1
persist-IsValid env s v = subst IsValid (sym (persist_frame env s)) v

finish-IsValid : (env : Env) (b : Bool) (s : Store) → IsValid s → IsValid (finish env b s).1
finish-IsValid env true s v = persist-IsValid env s v
finish-IsValid env false s v = v

pub refreshed-Keeps :
    (env : Env) (label : Option (List ℕ)) (t : ℤ) (b : Bool) → Keeps (refreshed env label t b)
unfolding refreshed
refreshed-Keeps env label t b = record {
  secret = λ e. refl;
  hex = λ e. refl;
  id = λ e. refl;
  label = λ e v. elim (Bool-cases (is_some_text label)) [
    | inl e ↦ rw e (sanitize_label-IsLabel label)
    | inr e ↦ rw e v
  ];
  last_ip = λ e v. v;
}

pub switched-Keeps : (env : Env) (b : Bool) → Keeps (switched env b)
unfolding switched
switched-Keeps env b = record {
  secret = λ e. refl;
  hex = λ e. refl;
  id = λ e. refl;
  label = λ e v. v;
  last_ip = λ e v. v;
}

pub updated-Keeps :
    (env : Env) (label : Option (Option (List ℕ))) (t : Option ℤ) (b : Option Bool)
    → Keeps (updated env label t b)
unfolding updated
updated-Keeps env label t b = record {
  secret = λ e. refl;
  hex = λ e. refl;
  id = λ e. refl;
  label = λ e v. text label e v;
  last_ip = λ e v. v;
}
  where
    text :
        (label : Option (Option (List ℕ))) (e : Entry)
        → IsLabel e.label
        → IsLabel (updated env label t b e).label
    text none e v = v
    text (some none) e v = sanitize_label-IsLabel (some [])
    text (some (some s)) e v = sanitize_label-IsLabel (some s)

pub fresh_entry-IsEntry :
    (env : Env) (secret : List ℕ) (label : Option (List ℕ)) (t : ℤ) (b : Bool) (next n : ℕ)
    → IsSecret secret
    → 1 ≤ next
    → next < n
    → IsEntry (next + 1) n (fresh_entry env secret label t b next)
unfolding fresh_entry
fresh_entry-IsEntry env secret label t b next n v p q = record {
  secret = v;
  hex = refl;
  label = sanitize_label-IsLabel label;
  last_ip = unfold sanitize_ip in sanitize_ip-IsIp none;
  id_pos = p;
  id_old = omega arith;
  id_counted = q;
}
