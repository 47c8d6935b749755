-- ===== src/Repl/Command/Words.antt =====
-- Lines as words with spaces between them: what the scanning functions and the arguments take of one.
use xendbg.Prelude.{
  ◌≤◌, ◌-◌, true, false, ◌≡◌, ◌≢◌, refl, ◌∙◌, List, [], ◌∷◌, ◌++◌, append_assoc, append-nil, Bytes,
  All, length, take, length-append, ok, arith,
}
use xendbg.Text.{is_space, skip_spaces}
use xendbg.Registers.{same_text_refl}
use xendbg.Repl.Scan.{same_place, text_between, next_whitespace, expect}
use xendbg.Repl.Command.{Argument, ArgsHandle, put}
use xendbg.Repl.Command.Match.{match_args_from, value_taken}

-- A text with no space in it that is not empty.
abbrev pub IsWord : Bytes → Type 0
IsWord w = (w ≢ []) × All (λ c. is_space c ≡ false) w

-- What may stand behind a word.
abbrev pub IsBoundary : Bytes → Type 0
IsBoundary [] = Unit
IsBoundary (c ∷ s) = is_space c ≡ true

-- Words, each behind a space, in front of a rest.
abbrev pub words_text : List Bytes → Bytes → Bytes
words_text [] rest = rest
words_text (w ∷ ws) rest = b' ' ∷ (w ++ words_text ws rest)

pub words_text-IsBoundary :
    (ws : List Bytes) (rest : Bytes) → IsBoundary rest → IsBoundary (words_text ws rest)
unfolding is_space
words_text-IsBoundary [] rest b = b
words_text-IsBoundary (w ∷ ws) rest b = refl

pub length-skip_spaces : (s : Bytes) → length (skip_spaces s) ≤ length s
unfolding skip_spaces
length-skip_spaces [] = omega arith
length-skip_spaces (c ∷ s) = ground (arith, length-skip_spaces s)

pub skip_spaces-word : (w rest : Bytes) → IsWord w → skip_spaces (w ++ rest) ≡ w ++ rest
unfolding skip_spaces
skip_spaces-word [] rest word = absurd (word.0 refl)
skip_spaces-word (c ∷ w) rest word = ground arith

pub skip_spaces-space : (s : Bytes) → skip_spaces (b' ' ∷ s) ≡ skip_spaces s
unfolding skip_spaces
skip_spaces-space s = refl

pub next_whitespace-word :
    (w rest : Bytes)
    → All (λ c. is_space c ≡ false) w
    → IsBoundary rest
    → next_whitespace (w ++ rest) ≡ rest
unfolding next_whitespace
next_whitespace-word [] [] word b = refl
next_whitespace-word [] (c ∷ s) word b = ground arith
next_whitespace-word (c ∷ w) rest word b = ground (arith, next_whitespace-word w rest word.1 b)

take-append : (w rest : Bytes) → take (length w) (w ++ rest) ≡ w
take-append [] rest = refl
take-append (c ∷ w) rest = rw (take-append w rest)

pub text_between-word : (w rest : Bytes) → text_between (w ++ rest) rest ≡ w
text_between-word w rest =
    let e : length (w ++ rest) - length rest ≡ length w = omega (arith, length-append w rest) in
    rw e (take-append w rest)

-- Iterators differ where one stands behind a word.
pub same_place-word : (w rest : Bytes) → w ≢ [] → same_place rest (w ++ rest) ≡ false
same_place-word [] rest h = absurd (h refl)
same_place-word (c ∷ w) rest h = ground (arith, length-append w rest)

pub expect-word :
    (w rest : Bytes) → IsWord w → IsBoundary rest → expect w (b' ' ∷ (w ++ rest)) ≡ rest
unfolding expect
expect-word w rest word b = rw (skip_spaces-space (w ++ rest)) (
    rw (skip_spaces-word w rest word) (
      rw (next_whitespace-word w rest word.1 b)
        (rw (text_between-word w rest) (rw (same_text_refl w)))))

-- The argument takes the word, whatever stands behind it.
abbrev pub Reads : Argument → Bytes → Type 0
Reads arg w = (rest : Bytes) → IsBoundary rest → arg.matcher (w ++ rest) ≡ ok rest

abbrev pub Taken : List Argument → List Bytes → Type 0
Taken [] [] = Unit
Taken (arg ∷ args) (w ∷ ws) = IsWord w × Reads arg w × Taken args ws
Taken _ _ = ⊥

abbrev pub values_of : List Argument → List Bytes → ArgsHandle
values_of (arg ∷ args) (w ∷ ws) = (arg.name, w) ∷ values_of args ws
values_of _ _ = []

pub value_taken-word :
    (arg : Argument) (w rest : Bytes) → w ≢ [] → value_taken arg (w ++ rest) rest ≡ ok w
unfolding value_taken
value_taken-word arg w rest h = rw (same_place-word w rest h) (rw (text_between-word w rest))

pub match_args_from-words :
    (args : List Argument) (ws : List Bytes) (handle : ArgsHandle) (rest : Bytes)
    → Taken args ws
    → IsBoundary rest
    → match_args_from args handle (words_text ws rest) ≡ ok (rest, handle ++ values_of args ws)
unfolding match_args_from
match_args_from-words [] [] handle rest t b = rw append-nil
match_args_from-words [] (w ∷ ws) handle rest t b = absurd t
match_args_from-words (arg ∷ args) [] handle rest t b = absurd t
match_args_from-words (arg ∷ args) (w ∷ ws) handle rest (word, reads, t) b =
    let next = words_text ws rest in
    rw (skip_spaces-space (w ++ next)) (
      rw (skip_spaces-word w next word) (
        rw (reads next (words_text-IsBoundary ws rest b)) (
          rw (value_taken-word arg w next word.0)
            (match_args_from-words args ws (put arg w handle) rest t b ∙ rw append_assoc))))
