-- ===== src/Base/Ctype.antt =====
-- What the source uses of <ctype.h> and <strings.h>, in the C locale. A C string is the list of its
-- bytes before the terminating NUL.
use Prim.Native.Nat.{ℕ, ◌+◌}
use mathlib.Core.Bool.{Bool, true, false, ◌&&◌, ◌||◌}
use mathlib.Core.List.{List, [], ◌∷◌}
use mtprotor.Base.Tests.{leb, ◌==◌, if◌then◌else◌}

abbrev pub isdigit : ℕ → Bool
isdigit c = leb b'0' c && leb c b'9'

abbrev pub isupper : ℕ → Bool
isupper c = leb b'A' c && leb c b'Z'

abbrev pub islower : ℕ → Bool
islower c = leb b'a' c && leb c b'z'

abbrev pub isalnum : ℕ → Bool
isalnum c = isdigit c || isupper c || islower c

abbrev pub isxdigit : ℕ → Bool
isxdigit c = isdigit c || (leb b'a' c && leb c b'f') || (leb b'A' c && leb c b'F')

abbrev pub isspace : ℕ → Bool
isspace c = c == 32 || (leb 9 c && leb c 13)

abbrev pub tolower : ℕ → ℕ
tolower c = if isupper c then c + 32 else c

-- `!strncasecmp (s, lit, strlen (lit))`
unfoldable pub has_prefix_nocase : List ℕ → List ℕ → Bool
has_prefix_nocase s [] = true
has_prefix_nocase [] (l ∷ lit) = false
has_prefix_nocase (c ∷ s) (l ∷ lit) = tolower c == tolower l && has_prefix_nocase s lit

-- `!strncmp (s, lit, strlen (lit))`
unfoldable pub has_prefix : List ℕ → List ℕ → Bool
has_prefix s [] = true
has_prefix [] (l ∷ lit) = false
has_prefix (c ∷ s) (l ∷ lit) = c == l && has_prefix s lit

-- `!strcasecmp (s, t)`
unfoldable pub same_nocase : List ℕ → List ℕ → Bool
same_nocase [] [] = true
same_nocase [] (y ∷ ys) = false
same_nocase (x ∷ xs) [] = false
same_nocase (x ∷ xs) (y ∷ ys) = tolower x == tolower y && same_nocase xs ys
