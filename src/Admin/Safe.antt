-- ===== src/Admin/Safe.antt =====
-- The buffers that the answers to a line are printed to.
use mtprotor.Admin.Handle.{Command}
use mtprotor.Base.{ℕ, ◌≡◌, Option, some, List}

-- Some bytes are sent, and none from behind a buffer.
abbrev pub IsSent : Option (List ℕ) → Type 0
IsSent o = (text : List ℕ) × (o ≡ some text)
