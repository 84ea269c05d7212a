-- ===== src/Secret/Text.antt =====
-- Text that the store takes in: ext_sanitize_label, ext_sanitize_ip and
-- ext_parse_bool of net/net-tcp-rpc-ext-server.c.
pub mod Clean
use mtprotor.Base.{
  ℕ, zero, suc, Bool, true, false, ◌&&◌, ◌||◌, Option, none, some, List, [], ◌∷◌, ◌==◌,
  if◌then◌else◌, same_bytes,
}
use mtprotor.Base.Ctype.{isalnum, isdigit, same_nocase}
use mtprotor.Base.Text.{codes}

-- EXT_SECRET_LABEL_MAX - 1 and sizeof (last_ip) - 1: the room before the terminating NUL.
abbrev pub label_room : ℕ
label_room = 95

abbrev pub ip_room : ℕ
ip_room = 63

-- The `while (*in && i < room)` loop: `keep c` is what is written for `c`, if anything.
unfoldable pub clean : (ℕ → Option ℕ) → ℕ → List ℕ → List ℕ
clean keep zero s = []
clean keep (suc room) [] = []
clean keep (suc room) (c ∷ s) = elim (keep c) [
  | none ↦ clean keep (suc room) s
  | some d ↦ d ∷ clean keep room s
]

abbrev pub label_char : ℕ → Option ℕ
label_char c =
    if isalnum c || c == b'.' || c == b'_' || c == b'-' || c == b':'
    then some c
    else if c == 32 || c == 9
    then some b'_'
    else none

abbrev pub ip_char : ℕ → Option ℕ
ip_char c = if isalnum c || c == b'.' || c == b':' || c == b'%' then some c else none

-- `none` is the NULL pointer.
unfoldable pub sanitize_label : Option (List ℕ) → List ℕ
sanitize_label none = []
sanitize_label (some s) = clean label_char label_room s

unfoldable pub sanitize_ip : Option (List ℕ) → List ℕ
sanitize_ip none = []
sanitize_ip (some s) = clean ip_char ip_room s

-- ext_parse_bool, its two literals compared without regard to case but for the digits.
unfoldable pub parse_bool : Option (List ℕ) → Bool → Bool
parse_bool none def = def
parse_bool (some []) def = def
parse_bool (some (c ∷ s)) def =
    if same_bytes (c ∷ s) (codes "1")
      || same_nocase (c ∷ s) (codes "true")
      || same_nocase (c ∷ s) (codes "yes")
    then true
    else if same_bytes (c ∷ s) (codes "0")
        || same_nocase (c ∷ s) (codes "false")
        || same_nocase (c ∷ s) (codes "no")
    then false
    else def
