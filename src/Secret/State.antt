-- ===== src/Secret/State.antt =====
-- The state that ext_secret_lock guards, and what its operations take from their surroundings
-- (net/net-tcp-rpc-ext-server.c).
use mtprotor.Base.{ℕ, ◌+◌, ◌-◌, ◌%◌, ◌^◌, Bool, Option, none, List, [], ltb, if◌then◌else◌}
use mtprotor.Base.Int.{ℤ, pos, negsuc}

-- struct ext_secret_entry. Ids are positive wherever the source sets them, so a number serves.
pub record Entry : Type 0 where
  pub secret : List ℕ
  pub hex : List ℕ
  pub label : List ℕ
  pub last_ip : List ℕ
  pub id : ℕ
  pub enabled : Bool
  pub created_at : ℤ
  pub updated_at : ℤ
  pub expires_at : ℤ
  pub last_seen_at : ℤ

-- struct ext_secret_metric. A counter is a 64-bit pattern, so that sums wrap as they do there.
pub record Metric : Type 0 where
  pub bytes_in : ℕ
  pub bytes_out : ℕ
  pub connections : ℕ

abbrev pub word64 : ℕ
word64 = 2 ^ 64

-- __sync_fetch_and_add
abbrev pub add64 : ℕ → ℕ → ℕ
add64 a b = (a + b) % word64

-- The `long long` that a pattern stands for.
abbrev pub signed64 : ℕ → ℤ
signed64 w = if ltb w (2 ^ 63) then pos w else negsuc (word64 - w - 1)

abbrev pub zero_metric : Metric
zero_metric = record { bytes_in = 0; bytes_out = 0; connections = 0 }

-- The array ext_secrets holds the `ext_secret_cnt` entries in use, `cap` is ext_secret_cap, and
-- `metrics` is the array ext_secret_metrics of ext_secret_metrics_cap elements. `disk` is what the
-- file system holds at `state_file`.
pub record Store : Type 0 where
  pub entries : List Entry
  pub cap : ℕ
  pub next_id : ℕ
  pub metrics : List Metric
  pub total_in : ℕ
  pub total_out : ℕ
  pub total_connections : ℕ
  pub state_file : List ℕ
  pub disk : Option (List ℕ)

-- What a call finds: the clock, whether the allocations and the file operations succeed, and what
-- of the text that it prints reaches the temporary file.
pub record Env : Type 0 where
  pub now : ℤ
  pub realloc_ok : Bool
  pub calloc_ok : Bool
  pub mkdirs_ok : Bool
  pub mkstemp_ok : Bool
  pub fdopen_ok : Bool
  pub rename_ok : Bool
  pub written : List ℕ → List ℕ

-- The results 0, -1, -2 and -3.
pub data Rc : Type 0 where
  done failed bad_format not_found : Rc

-- The static initial state.
abbrev pub initial : Store
initial = record {
  entries = [];
  cap = 0;
  next_id = 1;
  metrics = [];
  total_in = 0;
  total_out = 0;
  total_connections = 0;
  state_file = [];
  disk = none;
}
