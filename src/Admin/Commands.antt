-- ===== src/Admin/Commands.antt =====
-- Lines of the administration protocol and the commands of the secret store.
use mtprotor.Admin.Handle.{
  outcome, with_secret, add_reply, command_of, run_command, is_refused, handle_line,
}
use mtprotor.Admin.Line.{find_kv, Request}
use mtprotor.Admin.Parses.{is_break, IsWord, IsRequest, print_request, request_of-print}
use mtprotor.Base.{
  ℕ, suc, ◌≡◌, refl, ◌∙◌, true, false, some, List, [], ◌∷◌, ◌++◌, All-map, arith, same_bytes,
  same_bytes_refl,
}
use mtprotor.Base.Ctype.{same_nocase}
use mtprotor.Base.Decimal.{print_nat, print_int}
use mtprotor.Base.Fields.Laws.{Fails}
use mtprotor.Base.Int.{ℤ, pos, negsuc}
use mtprotor.Base.Scan.Laws.{
  IsDigit, IsLong, atoll-print_int, print_nat-IsDigit, print_nat-nonempty,
}
use mtprotor.Base.Text.{codes}
use mtprotor.Secret.Command.{cmd_add}
use mtprotor.Secret.State.{Store, Env}
use mtprotor.Secret.Text.{parse_bool}

-- A line that is printed for a request runs its command, where the request is not refused.
pub handle_line-print :
    (env : Env) (token : List ℕ) (r : Request) (rest : List ℕ) (s : Store)
    → IsRequest r
    → is_refused token r ≡ false
    → handle_line env token (print_request r ++ rest) s
      ≡ run_command env (command_of r.command) r.pairs s
unfolding handle_line
handle_line-print env token r rest s v allowed =
    rw (handle_line, request_of-print r rest v, allowed) refl

-- ADD with a label and an end.
unfoldable pub add_request : List ℕ → List ℕ → List ℕ → ℤ → Request
add_request token hex label expires_at = record {
  command = codes "add";
  pairs =
      record { key = codes "token"; value = token }
      ∷ record { key = codes "secret"; value = hex }
      ∷ record { key = codes "label"; value = label }
      ∷ record { key = codes "expires"; value = print_int expires_at }
      ∷ [];
}

add_request-pairs :
    (env : Env) (token hex label : List ℕ) (expires_at : ℤ) (s : Store)
    → IsLong expires_at
    → run_command env
        (command_of (add_request token hex label expires_at).command)
        (add_request token hex label expires_at).pairs
        s
      ≡ outcome
          (codes "add failed")
          (codes "add failed")
          (cmd_add env (some hex) (some label) expires_at true s)
unfolding run_command command_of add_request with_secret add_reply find_kv same_nocase same_bytes
    parse_bool
add_request-pairs env token hex label expires_at s l = rw (atoll-print_int expires_at l) refl

add_request-allowed :
    (token hex label : List ℕ) (expires_at : ℤ)
    → is_refused token (add_request token hex label expires_at) ≡ false
unfolding is_refused add_request find_kv same_bytes
add_request-allowed token hex label expires_at = rw (same_bytes_refl token) (ground arith)

print_int-IsWord : (z : ℤ) → IsWord (print_int z)
unfolding print_int
print_int-IsWord (pos n) =
    let (c, s, e) = print_nat-nonempty n in
    record {
      full = rw e (ground arith);
      unbroken =
          All-map IsDigit (Fails is_break) (λ c h. ground arith) (print_nat n)
            (print_nat-IsDigit n);
    }
print_int-IsWord (negsuc n) = record {
  full = ground arith;
  unbroken = (
    refl,
    All-map IsDigit (Fails is_break) (λ c h. ground arith) (print_nat (suc n))
        (print_nat-IsDigit (suc n)),
  );
}

add_request-IsRequest :
    (token hex label : List ℕ) (expires_at : ℤ)
    → IsWord token
    → IsWord hex
    → IsWord label
    → IsRequest (add_request token hex label expires_at)
unfolding add_request
add_request-IsRequest token hex label expires_at t h l = record {
  command = record { full = refl; unbroken = (refl, (refl, (refl, tt))) };
  pairs = (
    record {
      key = record { full = refl; unbroken = (refl, (refl, (refl, (refl, (refl, tt))))) };
      no_equals = (refl, (refl, (refl, (refl, (refl, tt)))));
      value = t;
    },
    (
      record {
        key = record { full = refl; unbroken = (refl, (refl, (refl, (refl, (refl, (refl, tt)))))) };
        no_equals = (refl, (refl, (refl, (refl, (refl, (refl, tt))))));
        value = h;
      },
      (
        record {
          key = record { full = refl; unbroken = (refl, (refl, (refl, (refl, (refl, tt))))) };
          no_equals = (refl, (refl, (refl, (refl, (refl, tt)))));
          value = l;
        },
        (
          record {
            key = record {
              full = refl;
              unbroken = (refl, (refl, (refl, (refl, (refl, (refl, (refl, tt)))))));
            };
            no_equals = (refl, (refl, (refl, (refl, (refl, (refl, (refl, tt)))))));
            value = print_int-IsWord expires_at;
          },
          tt,
        ),
      ),
    ),
  );
  room = omega arith;
}

-- The line `add token=.. secret=.. label=.. expires=..`, with the right token, words that have no
-- blanks in them and an end in the range of long long, does what ext_cmd_add does for these
-- arguments, enabled, and answers `OK` or the error that stands for its result.
pub handle_line-add :
    (env : Env) (token hex label rest : List ℕ) (expires_at : ℤ) (s : Store)
    → IsWord token
    → IsWord hex
    → IsWord label
    → IsLong expires_at
    → handle_line env token (print_request (add_request token hex label expires_at) ++ rest) s
      ≡ outcome
          (codes "add failed")
          (codes "add failed")
          (cmd_add env (some hex) (some label) expires_at true s)
handle_line-add env token hex label rest expires_at s t h l in_range =
    handle_line-print env token (add_request token hex label expires_at) rest s
      (add_request-IsRequest token hex label expires_at t h l)
      (add_request-allowed token hex label expires_at)
    ∙ add_request-pairs env token hex label expires_at s in_range
