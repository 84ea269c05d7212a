-- ===== src/Tests/Admin.antt =====
-- The administration protocol at concrete inputs.
use mtprotor.Admin.Answer.{send_err}
use mtprotor.Admin.Commands.{add_request, handle_line-add}
use mtprotor.Admin.Handle.{outcome, handle_line}
use mtprotor.Admin.Line.{Pair, Request, request_of, find_kv, pairs_of, pair_of, after_equals}
use mtprotor.Admin.Parses.{IsWord, print_request, request_of-print}
use mtprotor.Admin.Refuses.{handle_line-refused}
use mtprotor.Base.{
  ℕ, ◌≡◌, ◌≢◌, ◌⊎◌, refl, sym, ap, ◌∙◌, Bool, true, false, Option, none, some, List, [], ◌∷◌, ◌++◌,
  arith, replicate, same_bytes,
}
use mtprotor.Base.Fields.{tokens, split_on, before_first}
use mtprotor.Base.Int.{pos}
use mtprotor.Base.Text.{codes}
use mtprotor.Secret.Command.{cmd_add}
use mtprotor.Tests.Secret.{calm, two}

abbrev guess : List ℕ
guess = codes "list token=abd\n"

abbrev guess_pairs : List Pair
guess_pairs = record { key = codes "token"; value = codes "abd" } ∷ []

guess_read : request_of guess ≡ some (record { command = codes "list"; pairs = guess_pairs })
unfolding request_of tokens split_on before_first pairs_of pair_of after_equals
guess_read = refl

-- Whether the pair `token` of a request that was read is the right one.
abbrev is_right : Option Request → Bool
is_right none = false
is_right (some r) = elim (find_kv r.pairs (codes "token")) [
  | none ↦ false
  | some t ↦ same_bytes t (codes "abc")
]

guess_fails :
    (r : Request) → request_of guess ≡ some r → find_kv r.pairs (codes "token") ≢ some (codes "abc")
unfolding find_kv same_bytes
guess_fails r is right =
    let reads : is_right (some r) ≡ false = ap is_right (sym is ∙ guess_read) in
    let holds : is_right (some r) ≡ true = rw (right, is_right) refl in absurd cc

handle_line-refused_example :
    (handle_line calm (codes "abc") guess two ≡ (send_err (codes "unauthorized"), two))
    ⊎ (handle_line calm (codes "abc") guess two ≡ (send_err (codes "empty command"), two))
handle_line-refused_example = handle_line-refused calm (codes "abc") guess two refl guess_fails

abbrev word : List ℕ
word = codes "x=1"

word-IsWord : IsWord word
word-IsWord = record { full = refl; unbroken = (refl, (refl, (refl, tt))) }

key-IsWord : IsWord (codes "k")
key-IsWord = record { full = refl; unbroken = (refl, tt) }

abbrev hex : List ℕ
hex = replicate 32 b'c'

hex-IsWord : IsWord hex
hex-IsWord = record {
  full = refl;
  unbroken = (
    refl,
    (
      refl,
      (
        refl,
        (
          refl,
          (
            refl,
            (
              refl,
              (
                refl,
                (
                  refl,
                  (
                    refl,
                    (
                      refl,
                      (
                        refl,
                        (
                          refl,
                          (
                            refl,
                            (
                              refl,
                              (
                                refl,
                                (
                                  refl,
                                  (
                                    refl,
                                    (
                                      refl,
                                      (
                                        refl,
                                        (
                                          refl,
                                          (
                                            refl,
                                            (
                                              refl,
                                              (
                                                refl,
                                                (
                                                  refl,
                                                  (
                                                    refl,
                                                    (
                                                      refl,
                                                      (
                                                        refl,
                                                        (refl, (refl, (refl, (refl, (refl, tt))))),
                                                      ),
                                                    ),
                                                  ),
                                                ),
                                              ),
                                            ),
                                          ),
                                        ),
                                      ),
                                    ),
                                  ),
                                ),
                              ),
                            ),
                          ),
                        ),
                      ),
                    ),
                  ),
                ),
              ),
            ),
          ),
        ),
      ),
    ),
  );
}

abbrev request : Request
request = record { command = word; pairs = record { key = codes "k"; value = word } ∷ [] }

request_of-print_example : request_of (print_request request ++ codes "more") ≡ some request
request_of-print_example = request_of-print request (codes "more") (record {
  command = word-IsWord;
  pairs = (record { key = key-IsWord; no_equals = (refl, tt); value = word-IsWord }, tt);
  room = omega arith;
})

handle_line-add_example :
    handle_line calm word (print_request (add_request word hex word (pos 7)) ++ []) two
    ≡ outcome
        (codes "add failed")
        (codes "add failed")
        (cmd_add calm (some hex) (some word) (pos 7) true two)
handle_line-add_example =
    handle_line-add calm word hex word [] (pos 7) two word-IsWord hex-IsWord word-IsWord
      (omega arith)
