-- ===== src/Repl/Command/Flags.antt =====
-- Flags by their names: which flag a line names, and what a line of flags is matched as.
mod Names
unfoldable pub use Names.{lookup_short}
pub use Names.{
  lookup_long, IsName, long_flag, short_flag, match_flag_name-long, match_flag_name-short,
  find_flag-long, find_flag-short,
}
use xendbg.Prelude.{
  ℕ, zero, suc, ◌+◌, ◌≤◌, ◌<◌, Bool, true, false, ◌≡◌, ◌≢◌, refl, ◌∙◌, Option, none, some, List, [],
  ◌∷◌, ◌++◌, append_assoc, append-nil, ◌==◌, if◌then◌else◌, Bytes, All, length, length-append, map,
  ==_refl, ok, arith,
}
use xendbg.Text.{is_space, skip_spaces}
use xendbg.Registers.{same_text_refl, same_text}
use xendbg.Repl.Scan.{same_place, text_between, next_not_char, next_whitespace}
use xendbg.Repl.Command.{Flag, FlagsHandle, FlagEntry}
use xendbg.Repl.Command.Match.{
  match_dashes, match_flag_name, match_flag, find_flag, match_args, match_flags_from,
  match_flag_or_skip,
}
use xendbg.Repl.Command.Words.{
  IsWord, IsBoundary, words_text, Taken, values_of, match_args_from-words, next_whitespace-word,
  text_between-word, words_text-IsBoundary,
}

-- A flag as it is given on a line, with the words behind it.
pub data FlagUse : Type 0 where
  long_use short_use : Flag → List Bytes → FlagUse

abbrev pub use_text : FlagUse → Bytes → Bytes
use_text (long_use flag ws) rest = long_flag flag.long_name (words_text ws rest)
use_text (short_use flag ws) rest = short_flag flag.short_name (words_text ws rest)

abbrev pub flag_of : FlagUse → Flag
flag_of (long_use flag ws) = flag
flag_of (short_use flag ws) = flag

abbrev pub words_of : FlagUse → List Bytes
words_of (long_use flag ws) = ws
words_of (short_use flag ws) = ws

-- The name is one that a line can hold, and no other flag in front has it.
abbrev pub IsNamed : List Flag → FlagUse → Type 0
IsNamed flags (long_use flag ws) =
    IsName flag.long_name × (lookup_long flag.long_name flags ≡ some flag)
IsNamed flags (short_use flag ws) =
    (flag.short_name ≢ b'-')
    × (is_space flag.short_name ≡ false)
    × (lookup_short flag.short_name flags ≡ some flag)

abbrev pub IsUse : List Flag → FlagUse → Type 0
IsUse flags u = IsNamed flags u × Taken (flag_of u).args (words_of u)

find_flag-use :
    (flags : List Flag) (u : FlagUse) (rest : Bytes)
    → IsUse flags u
    → IsBoundary rest
    → find_flag (use_text u rest) flags ≡ some (flag_of u)
find_flag-use flags (long_use flag ws) rest ((name, found), t) b =
    find_flag-long flags flag.long_name _ name (words_text-IsBoundary ws rest b) ∙ found
find_flag-use flags (short_use flag ws) rest ((dash, space, found), t) b =
    find_flag-short flags flag.short_name _ dash space ∙ found

match_flag_name-use :
    (flags : List Flag) (u : FlagUse) (rest : Bytes)
    → IsUse flags u
    → IsBoundary rest
    → match_flag_name (flag_of u) (use_text u rest) ≡ words_text (words_of u) rest
match_flag_name-use flags (long_use flag ws) rest ((name, found), t) b =
    match_flag_name-long flag flag.long_name _ name (words_text-IsBoundary ws rest b)
    ∙ rw (same_text_refl flag.long_name)
match_flag_name-use flags (short_use flag ws) rest ((dash, space, found), t) b =
    match_flag_name-short flag flag.short_name _ dash space ∙ rw (==_refl flag.short_name)

same_place-use :
    (u : FlagUse) (rest : Bytes)
    → same_place (words_text (words_of u) rest) (use_text u rest) ≡ false
same_place-use (long_use flag ws) rest =
    ground (arith, length-append flag.long_name (words_text ws rest))
same_place-use (short_use flag ws) rest = ground arith

pub match_flag-use :
    (flags : List Flag) (u : FlagUse) (rest : Bytes)
    → IsUse flags u
    → IsBoundary rest
    → match_flag (flag_of u) (use_text u rest) ≡ ok (rest, values_of (flag_of u).args (words_of u))
unfolding match_flag match_args
match_flag-use flags u rest is b = rw (match_flag_name-use flags u rest is b) (
    rw (same_place-use u rest)
      (rw (match_args_from-words (flag_of u).args (words_of u) [] rest is.1 b)))

-- Flags, each behind a space.
abbrev pub uses_text : List FlagUse → Bytes → Bytes
uses_text [] rest = rest
uses_text (u ∷ us) rest = b' ' ∷ use_text u (uses_text us rest)

abbrev pub entry_of : FlagUse → FlagEntry
entry_of u = record {
  short_name = (flag_of u).short_name;
  long_name = (flag_of u).long_name;
  args = values_of (flag_of u).args (words_of u);
}

abbrev pub StartsNoFlag : Bytes → Type 0
StartsNoFlag [] = Unit
StartsNoFlag (c ∷ s) = c ≢ b'-'

pub uses_text-IsBoundary :
    (us : List FlagUse) (rest : Bytes) → IsBoundary rest → IsBoundary (uses_text us rest)
unfolding is_space
uses_text-IsBoundary [] rest b = b
uses_text-IsBoundary (u ∷ us) rest b = refl

pub skip_spaces-use :
    (u : FlagUse) (rest : Bytes) → skip_spaces (b' ' ∷ use_text u rest) ≡ use_text u rest
unfolding skip_spaces is_space
skip_spaces-use (long_use flag ws) rest = refl
skip_spaces-use (short_use flag ws) rest = refl

-- The text of a flag starts with a dash.
abbrev dashed : Bytes → Bytes
dashed s = b'-' ∷ s

abbrev use_tail : FlagUse → Bytes → Bytes
use_tail (long_use flag ws) rest = b'-' ∷ (flag.long_name ++ words_text ws rest)
use_tail (short_use flag ws) rest = flag.short_name ∷ words_text ws rest

use_text-dashed : (u : FlagUse) (rest : Bytes) → use_text u rest ≡ dashed (use_tail u rest)
use_text-dashed (long_use flag ws) rest = refl
use_text-dashed (short_use flag ws) rest = refl

round_at_dash :
    (fuel : ℕ) (flags : List Flag) (handle : FlagsHandle) (it s : Bytes)
    → it ≡ dashed s
    → match_flags_from (suc fuel) false flags handle it
      ≡ match_flag_or_skip false handle it (find_flag it flags) (match_flags_from fuel false flags)
unfolding match_flags_from
round_at_dash fuel flags handle it s e = rw e

match_flags_from-no_flag :
    (fuel : ℕ) (flags : List Flag) (handle : FlagsHandle) (s : Bytes)
    → StartsNoFlag s
    → match_flags_from (suc fuel) false flags handle s ≡ ok (s, handle)
unfolding match_flags_from
match_flags_from-no_flag fuel flags handle [] h = refl
match_flags_from-no_flag fuel flags handle (c ∷ s) h = ground arith

pub match_flags_from-uses :
    (us : List FlagUse) (fuel : ℕ) (flags : List Flag) (handle : FlagsHandle) (rest : Bytes)
    → length us < fuel
    → All (IsUse flags) us
    → IsBoundary rest
    → StartsNoFlag (skip_spaces rest)
    → match_flags_from fuel false flags handle (skip_spaces (uses_text us rest))
      ≡ ok (skip_spaces rest, handle ++ map entry_of us)
unfolding match_flag_or_skip
match_flags_from-uses us zero flags handle rest small all b start = absurd (omega arith)
match_flags_from-uses [] (suc fuel) flags handle rest small all b start =
    match_flags_from-no_flag fuel flags handle (skip_spaces rest) start ∙ rw append-nil
match_flags_from-uses (u ∷ us) (suc fuel) flags handle rest small (is, all) b start =
    let behind = uses_text us rest in
    let edge = uses_text-IsBoundary us rest b in
    rw (skip_spaces-use u behind) (
      round_at_dash fuel flags handle (use_text u behind) _ (use_text-dashed u behind)
      ∙ rw (find_flag-use flags u behind is edge) (
          rw (match_flag-use flags u behind is edge) (
            match_flags_from-uses us fuel flags _ rest (omega arith) all b start
            ∙ rw append_assoc)))
