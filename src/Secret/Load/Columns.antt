-- ===== src/Secret/Load/Columns.antt =====
-- A line of the state file: ext_split_tsv_line, ext_is_int_str, and the columns that
-- tcp_rpcs_load_secrets_state of net/net-tcp-rpc-ext-server.c takes.
use mtprotor.Base.{
  ℕ, zero, suc, ◌-◌, Bool, true, false, ◌&&◌, ◌||◌, some, List, [], ◌∷◌, leb, ◌==◌, if◌then◌else◌,
  length, take,
}
use mtprotor.Base.Ctype.{isdigit}
use mtprotor.Base.Fields.{split_on, before_first, field}
use mtprotor.Base.Int.{ℤ, pos, negsuc}
use mtprotor.Base.Scan.{atoi, atoll}
use mtprotor.Secret.State.{Metric, word64}
use mtprotor.Secret.Text.{sanitize_ip}

abbrev pub is_tab : ℕ → Bool
is_tab c = c == 9

abbrev pub is_line_end : ℕ → Bool
is_line_end c = c == 13 || c == 10

-- ext_split_tsv_line with room for 16 columns.
unfoldable pub split_tsv_line : List ℕ → List (List ℕ)
split_tsv_line line = take 16 (split_on is_tab (before_first is_line_end line))

unfoldable pub all_isdigit : List ℕ → Bool
all_isdigit [] = true
all_isdigit (c ∷ s) = isdigit c && all_isdigit s

-- Whether there is something, and digits alone, behind a sign.
unfoldable pub is_int_str : List ℕ → Bool
is_int_str [] = false
is_int_str (c ∷ []) = isdigit c
is_int_str (c ∷ d ∷ s) =
    if c == b'-' || c == b'+' then all_isdigit (d ∷ s) else all_isdigit (c ∷ d ∷ s)

-- The 64-bit pattern of a `long long`.
abbrev pub pattern64 : ℤ → ℕ
pattern64 (pos n) = n
pattern64 (negsuc n) = word64 - n - 1

-- What a line says of a secret. `counted` says that it has at least 10 columns.
pub record Row : Type 0 where
  pub hex : List ℕ
  pub enabled : Bool
  pub expires_at : ℤ
  pub created_at : ℤ
  pub updated_at : ℤ
  pub parsed_id : ℤ
  pub metric : Metric
  pub last_seen_at : ℤ
  pub last_ip : List ℕ
  pub label : List ℕ
  pub counted : Bool

-- `atoi (s) ? 1 : 0`
abbrev pub is_nonzero : ℤ → Bool
is_nonzero (pos zero) = false
is_nonzero (pos (suc n)) = true
is_nonzero (negsuc n) = true

-- The columns of a line: the long form of 12, the form of 10 and the short one.
unfoldable pub parse_row : List (List ℕ) → Row
parse_row cols = record {
  hex = field cols 0;
  enabled = is_nonzero (atoi (field cols 1));
  expires_at = atoll (field cols 2);
  created_at = atoll (field cols 3);
  updated_at = atoll (field cols 4);
  parsed_id = if with_counters then atoi (field cols 5) else pos 0;
  metric =
      if with_counters
      then record {
        bytes_in = pattern64 (atoll (field cols 6));
        bytes_out = pattern64 (atoll (field cols 7));
        connections = pattern64 (atoll (field cols 8));
      }
      else record { bytes_in = 0; bytes_out = 0; connections = 0 };
  last_seen_at = if with_counters && with_seen then atoll (field cols 9) else pos 0;
  last_ip = if with_counters && with_seen then sanitize_ip (some (field cols 10)) else [];
  label =
      if with_counters
      then if with_seen then field cols 11 else field cols 9
      else if leb 6 (length cols)
      then field cols 5
      else [];
  counted = leb 10 (length cols);
}
  where
    with_counters : Bool
    with_counters =
        leb 10 (length cols)
        && is_int_str (field cols 5)
        && is_int_str (field cols 6)
        && is_int_str (field cols 7)
        && is_int_str (field cols 8)

    with_seen : Bool
    with_seen = leb 12 (length cols) && is_int_str (field cols 9)
