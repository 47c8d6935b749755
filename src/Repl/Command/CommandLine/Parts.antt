-- ===== src/Repl/Command/CommandLine/Parts.antt =====
-- The parts of a line: the words that are and are not a name, the flags and the arguments.
use xendbg.Prelude.{
  ◌≤◌, ◌<◌, false, ◌≡◌, refl, ◌∙◌, Option, none, some, List, [], ◌∷◌, ◌++◌, map, ==_refl,
  if◌then◌else◌, Bytes, All, length, length-append, Result, ok, err, ◌>>=◌, arith,
}
use xendbg.Text.{skip_spaces}
use xendbg.Registers.{same_text_refl, same_text}
use xendbg.Repl.Scan.{same_place, expect}
use xendbg.Repl.Command.{Argument, ArgsHandle, CommandFault}
use xendbg.Repl.Command.Match.{match_args, match_args_from, match_flags}
use xendbg.Repl.Command.Verb.{
  Verb, Command, group, command_verb, name_of, match_verb, match_command,
}
use xendbg.Repl.Command.Words.{
  length-skip_spaces, IsWord, IsBoundary, words_text, Taken, values_of, match_args_from-words,
  skip_spaces-word, next_whitespace-word, text_between-word,
}
use xendbg.Repl.Command.Flags.{
  FlagUse, IsUse, use_text, long_use, short_use, uses_text, entry_of, StartsNoFlag, skip_spaces-use,
  match_flags_from-uses,
}

length-words_text : (ws : List Bytes) (rest : Bytes) → length rest ≤ length (words_text ws rest)
length-words_text [] rest = omega arith
length-words_text (w ∷ ws) rest =
    omega (arith, length-append w (words_text ws rest), length-words_text ws rest)

length-use_text : (u : FlagUse) (rest : Bytes) → length rest < length (use_text u rest)
length-use_text (long_use flag ws) rest =
    omega (arith, length-append flag.long_name (words_text ws rest), length-words_text ws rest)
length-use_text (short_use flag ws) rest = omega (arith, length-words_text ws rest)

-- The first verb, and the first command, with a name.
module _ {A : Type 0} where
  unfoldable pub lookup_verb : Bytes → List (Verb A) → Option (Verb A)
  lookup_verb name [] = none
  lookup_verb name (verb ∷ verbs) =
      let rest = lookup_verb name verbs in if same_text verb.name name then some verb else rest

  unfoldable pub lookup_command : Bytes → List (Command A) → Option (Command A)
  lookup_command name [] = none
  lookup_command name (cmd ∷ commands) =
      let rest = lookup_command name commands in
      if same_text (name_of cmd) name then some cmd else rest

-- The word at the start of a line is not the target.
expect-other :
    (target w rest : Bytes) (lead : Bytes)
    → skip_spaces lead ≡ w ++ rest
    → IsWord w
    → IsBoundary rest
    → same_text target w ≡ false
    → expect target lead ≡ lead
unfolding expect
expect-other target w rest lead e word b other =
    rw e (rw (next_whitespace-word w rest word.1 b) (rw (text_between-word w rest) (rw other)))

-- The fuel of `match_flags` is enough for the flags of a line.
length-uses_text :
    (us : List FlagUse) (rest : Bytes) → length us ≤ length (skip_spaces (uses_text us rest))
length-uses_text [] rest = omega arith
length-uses_text (u ∷ us) rest = rw (skip_spaces-use u (uses_text us rest)) (
    omega (
      arith,
      length-use_text u (uses_text us rest),
      length-uses_text us rest,
      length-skip_spaces (uses_text us rest),
    ))

pub match_flags-uses :
    {A : Type 0} (verb : Verb A) (us : List FlagUse) (rest : Bytes)
    → All (IsUse verb.flags) us
    → IsBoundary rest
    → StartsNoFlag (skip_spaces rest)
    → match_flags verb.flags false (skip_spaces (uses_text us rest))
      ≡ ok (skip_spaces rest, map entry_of us)
unfolding match_flags
match_flags-uses verb us rest all b start =
    match_flags_from-uses us _ verb.flags [] rest (omega (arith, length-uses_text us rest)) all b
      start

-- Spaces in front are skipped twice.
pub skip_spaces_idem : (s : Bytes) → skip_spaces (skip_spaces s) ≡ skip_spaces s
unfolding skip_spaces
skip_spaces_idem [] = refl
skip_spaces_idem (c ∷ s) = ground (arith, skip_spaces_idem s)

match_args_from-skip :
    (arg : Argument) (args : List Argument) (handle : ArgsHandle) (s : Bytes)
    → match_args_from (arg ∷ args) handle (skip_spaces s) ≡ match_args_from (arg ∷ args) handle s
unfolding match_args_from
match_args_from-skip arg args handle s = rw (skip_spaces_idem s)

pub match_args-words :
    (args : List Argument) (ws : List Bytes)
    → Taken args ws
    → match_args args (skip_spaces (words_text ws [])) ≡ ok ([], values_of args ws)
unfolding match_args
match_args-words [] [] t = match_args_from-words [] [] [] [] t tt
match_args-words [] (w ∷ ws) t = absurd t
match_args-words (arg ∷ args) [] t = absurd t
match_args-words (arg ∷ args) (w ∷ ws) t =
    match_args_from-skip arg args [] (words_text (w ∷ ws) [])
    ∙ match_args_from-words (arg ∷ args) (w ∷ ws) [] [] t tt

pub same_place-behind : (w rest : Bytes) → same_place rest (b' ' ∷ (w ++ rest)) ≡ false
same_place-behind w rest = ground (arith, length-append w rest)

-- One round of a search for the first action.
pub first_found :
    {A : Type 0} (r rest : Result CommandFault (Option A)) (m : Result CommandFault A)
    → r ≡ (m >>= (λ a. ok (some a)))
    → (r >>= (λ action. elim action [ none ↦ rest | some a ↦ ok (some a) ]))
      ≡ (m >>= (λ a. ok (some a)))
first_found r rest (ok a) e = rw e
first_found r rest (err f) e = rw e

pub none_found :
    {A : Type 0} (r rest : Result CommandFault (Option A))
    → r ≡ ok none
    → (r >>= (λ action. elim action [ none ↦ rest | some a ↦ ok (some a) ])) ≡ rest
none_found r rest e = rw e

-- A verb with another name.
pub match_verb-other :
    {A : Type 0} (verb : Verb A) (w rest lead : Bytes)
    → skip_spaces lead ≡ w ++ rest
    → IsWord w
    → IsBoundary rest
    → same_text verb.name w ≡ false
    → match_verb verb lead ≡ ok none
unfolding match_verb
match_verb-other verb w rest lead e word b other =
    rw (expect-other verb.name w rest lead e word b other) (rw (==_refl (length lead)))

pub match_command-other :
    {A : Type 0} (cmd : Command A) (w rest : Bytes)
    → IsWord w
    → IsBoundary rest
    → same_text (name_of cmd) w ≡ false
    → match_command cmd (w ++ rest) ≡ ok none
unfolding match_command
match_command-other (command_verb verb) w rest word b other =
    match_verb-other verb w rest (w ++ rest) (skip_spaces-word w rest word) word b other
match_command-other (group name description verbs) w rest word b other =
    rw (expect-other name w rest (w ++ rest) (skip_spaces-word w rest word) word b other)
      (rw (==_refl (length (w ++ rest))))

pub expect-first : (w rest : Bytes) → IsWord w → IsBoundary rest → expect w (w ++ rest) ≡ rest
unfolding expect
expect-first w rest word b = rw (skip_spaces-word w rest word) (
    rw (next_whitespace-word w rest word.1 b)
      (rw (text_between-word w rest) (rw (same_text_refl w))))
