-- ===== src/Tests/Load.antt =====
-- The state file of the secret store at concrete inputs.
use mtprotor.Base.Search.{count, find_index}
use mtprotor.Secret.Hex.{
  secret16_to_hex, secret16_from_hex, after_prefix, hex16_to_secret, all_digits, digit_pairs,
}
use mtprotor.Base.{
  same_bytes, ℕ, zero, suc, ◌-◌, ◌^◌, ◌≤◌, replicate, ◌≡◌, refl, true, none, some, [], ◌∷◌, arith,
}
use mtprotor.Base.Ctype.{has_prefix, has_prefix_nocase}
use mtprotor.Base.Fields.{lines, split_on, tokens, before_first}
use mtprotor.Base.Scan.{skip_spaces, digits_value, signed_value, atoll, atoi}
use mtprotor.Secret.Load.Columns.{split_tsv_line, all_isdigit, is_int_str, parse_row}
use mtprotor.Base.Int.{pos, negsuc}
use mtprotor.Base.Text.{codes}
use mtprotor.Secret.Load.{
  load_secrets_state, read_lines, read_line, apply_row, apply_new, free_id, id_taken,
}
use mtprotor.Secret.Load.Keeps.{FewIds, line_id, disk_lines, load_secrets_state-IsValid}
use mtprotor.Secret.Load.Restore.{Restored}
use mtprotor.Secret.Load.Roundtrip.{Writable, restarted, load-persist}
use mtprotor.Secret.Persist.{metric_of, persist}
use mtprotor.Secret.Reserve.{reserve, cap_overflows, metrics_cap_for, double_below}
use mtprotor.Secret.State.{Store, Rc, zero_metric, done}
use mtprotor.Secret.Valid.{IsValid}
use mtprotor.Tests.Secret.{calm}

-- One secret with its counters, one of them negative when it is printed.
abbrev pub saved : Store
saved = record {
  entries =
      record {
        secret = replicate 16 0xa5;
        hex = secret16_to_hex (replicate 16 0xa5);
        label = codes "a";
        last_ip = codes "::1";
        id = 1;
        enabled = true;
        created_at = pos 1_700_000_000;
        updated_at = pos 1_700_000_000;
        expires_at = negsuc 0;
        last_seen_at = pos 1_700_000_001;
      }
      ∷ [];
  cap = 64;
  next_id = 5;
  metrics = zero_metric ∷ record { bytes_in = 5; bytes_out = 2 ^ 64 - 1; connections = 1 } ∷ [];
  total_in = 5;
  total_out = 2 ^ 64 - 1;
  total_connections = 1;
  state_file = codes "/var/state";
  disk = none;
}

saved_unused : (i : ℕ) → 5 ≤ i → metric_of saved.metrics i ≡ zero_metric
unfolding metric_of
saved_unused zero h = absurd (omega arith)
saved_unused (suc zero) h = absurd (omega arith)
saved_unused (suc (suc i)) h = ground arith

pub saved-Writable : Writable saved
unfolding count
saved-Writable = record {
  valid = record {
    fits = omega arith;
    next_pos = omega arith;
    one_secret = λ k. ground arith;
    one_id = λ i. ground arith;
    each = (
      record {
        secret = omega arith;
        hex = refl;
        label = record { short = omega arith; clean_text = (refl, tt) };
        last_ip = record { short = omega arith; clean_text = (refl, (refl, (refl, tt))) };
        id_pos = omega arith;
        id_old = omega arith;
        id_counted = omega arith;
      },
      tt,
    );
    unused = saved_unused;
  };
  next_id = omega arith;
  each = (
    record {
      id = omega arith;
      expires_at = omega arith;
      created_at = omega arith;
      updated_at = omega arith;
      last_seen_at = omega arith;
      not_before_0 = refl;
      bytes_in = unfold metric_of in omega arith;
      bytes_out = unfold metric_of in omega arith;
      connections = unfold metric_of in omega arith;
    },
    tt,
  );
}

load-persist_example :
    (u : Store) × (load_secrets_state calm true (restarted (persist calm saved).1) ≡ some (done, u))
    × Restored saved.next_id saved.metrics saved.entries u
load-persist_example =
    load-persist calm calm saved (persist calm saved).1 refl refl (λ text. refl) saved-Writable refl
      (unfold persist in refl)

-- A file with a line for the next id, one of the old form, a comment, a line that is too short, one that
-- is no secret and one that asks for no id.
abbrev damaged : Store
damaged = record saved {
  disk = some (
      codes
        "# saved\nv3\ta\tb\tc\t7\nv1\n0101010101010101010101010101010\t1\nxyz\t1\t0\t0\t0\n000102030405060708090a0b0c0d0e0f\t1\t0\t5\t5\told label\n");
}

damaged-FewIds : FewIds 7 damaged
unfolding disk_lines line_id lines split_on tokens before_first has_prefix skip_spaces digits_value
    signed_value atoll atoi split_tsv_line all_isdigit is_int_str parse_row
damaged-FewIds = record {
  next_id = omega arith;
  each =
      (omega arith, (omega arith, (omega arith, (omega arith, (omega arith, (omega arith, tt))))));
  room = omega arith;
}

load_secrets_state-IsValid_example :
    (rc : Rc) × (t : Store) × (load_secrets_state calm true damaged ≡ some (rc, t)) × IsValid t
load_secrets_state-IsValid_example =
    load_secrets_state-IsValid calm refl true 7 damaged damaged-FewIds saved-Writable.valid

-- A file that names an id for which an int cannot hold the number of counters.
abbrev huge : Store
huge = record saved {
  disk = some (codes "000102030405060708090a0b0c0d0e0f\t1\t0\t5\t5\t1073741824\t0\t0\t0\tlabel\n");
}

load_secrets_state-huge : load_secrets_state calm true huge ≡ none
unfolding load_secrets_state read_lines read_line lines split_on tokens before_first has_prefix
    skip_spaces digits_value signed_value atoll atoi split_tsv_line all_isdigit is_int_str parse_row
    apply_row apply_new free_id id_taken secret16_from_hex after_prefix hex16_to_secret all_digits
    digit_pairs has_prefix_nocase find_index reserve cap_overflows metrics_cap_for double_below
    same_bytes
load_secrets_state-huge = refl
