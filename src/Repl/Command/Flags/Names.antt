-- ===== src/Repl/Command/Flags/Names.antt =====
-- The names of flags: which flag a line names.
use xendbg.Prelude.{
  ℕ, ◌+◌, ◌≤◌, Bool, true, false, ◌≡◌, ◌≢◌, refl, ◌∙◌, Option, none, some, List, [], ◌∷◌, ◌++◌,
  ◌==◌, if◌then◌else◌, Bytes, length, length-append, ==_refl, arith,
}
use xendbg.Text.{is_space, skip_spaces}
use xendbg.Registers.{same_text}
use xendbg.Repl.Scan.{same_place, text_between, next_not_char, next_whitespace}
use xendbg.Repl.Command.{Flag}
use xendbg.Repl.Command.Match.{match_dashes, match_flag_name, find_flag}
use xendbg.Repl.Command.Words.{IsWord, IsBoundary, next_whitespace-word, text_between-word}

-- The first flag with a name.
pub lookup_long : Bytes → List Flag → Option Flag
lookup_long name [] = none
lookup_long name (flag ∷ flags) =
    let rest = lookup_long name flags in if same_text flag.long_name name then some flag else rest

unfoldable pub lookup_short : ℕ → List Flag → Option Flag
lookup_short c [] = none
lookup_short c (flag ∷ flags) =
    let rest = lookup_short c flags in if c == flag.short_name then some flag else rest

-- A name that a line can hold: a word with no dash in front.
abbrev pub IsName : Bytes → Type 0
IsName [] = ⊥
IsName (c ∷ name) = (c ≢ b'-') × IsWord (c ∷ name)

abbrev pub long_flag : Bytes → Bytes → Bytes
long_flag name rest = b'-' ∷ b'-' ∷ (name ++ rest)

abbrev pub short_flag : ℕ → Bytes → Bytes
short_flag c rest = b'-' ∷ c ∷ rest

module _ (flag : Flag) (begin flag_start next_ws : Bytes) where
  match_dashes-two :
      length begin ≡ length flag_start + 2
      → same_place flag_start next_ws ≡ false
      → match_dashes flag begin flag_start next_ws
        ≡ (if same_text flag.long_name (text_between flag_start next_ws) then next_ws else begin)
  unfolding match_dashes
  match_dashes-two size apart = ground arith

same_place_sym-word : (w rest : Bytes) → w ≢ [] → same_place (w ++ rest) rest ≡ false
same_place_sym-word [] rest h = absurd (h refl)
same_place_sym-word (c ∷ w) rest h = ground (arith, length-append w rest)

pub match_flag_name-long :
    (flag : Flag) (name rest : Bytes)
    → IsName name
    → IsBoundary rest
    → match_flag_name flag (long_flag name rest)
      ≡ (if same_text flag.long_name name then rest else long_flag name rest)
unfolding match_flag_name skip_spaces is_space next_not_char
match_flag_name-long flag [] rest h b = absurd h
match_flag_name-long flag (c ∷ name) rest (dash, word) b =
    let t : Bytes = (c ∷ name) ++ rest in
    let shut : (c == b'-') ≡ false = ground arith in
    rw shut (
      rw (next_whitespace-word (c ∷ name) rest word.1 b) (
        match_dashes-two flag (b'-' ∷ b'-' ∷ t) t rest (omega arith)
          (same_place_sym-word (c ∷ name) rest word.0)
        ∙ rw (text_between-word (c ∷ name) rest)))

match_dashes-one :
    (flag : Flag) (c : ℕ) (rest next_ws : Bytes)
    → same_place (c ∷ rest) next_ws ≡ false
    → match_dashes flag (b'-' ∷ c ∷ rest) (c ∷ rest) next_ws
      ≡ (if c == flag.short_name then rest else short_flag c rest)
unfolding match_dashes
match_dashes-one flag c rest next_ws apart = ground arith

next_whitespace-le : (s : Bytes) → length (next_whitespace s) ≤ length s
unfolding next_whitespace
next_whitespace-le [] = omega arith
next_whitespace-le (c ∷ s) = ground (arith, next_whitespace-le s)

next_whitespace-apart :
    (c : ℕ) (s : Bytes) → is_space c ≡ false → same_place (c ∷ s) (next_whitespace (c ∷ s)) ≡ false
unfolding next_whitespace
next_whitespace-apart c s space = ground (arith, next_whitespace-le s)

pub match_flag_name-short :
    (flag : Flag) (c : ℕ) (rest : Bytes)
    → c ≢ b'-'
    → is_space c ≡ false
    → match_flag_name flag (short_flag c rest)
      ≡ (if c == flag.short_name then rest else short_flag c rest)
unfolding match_flag_name skip_spaces is_space next_not_char
match_flag_name-short flag c rest dash space =
    let shut : (c == b'-') ≡ false = ground arith in
    rw shut (match_dashes-one flag c rest _ (next_whitespace-apart c rest space))

find_flag-nil : (it : Bytes) → find_flag it [] ≡ none
unfolding find_flag
find_flag-nil it = refl

module _ (flag : Flag) (flags : List Flag) (it : Bytes) where
  find_flag-head :
      same_place (match_flag_name flag it) it ≡ false → find_flag it (flag ∷ flags) ≡ some flag
  unfolding find_flag
  find_flag-head e = rw e

  find_flag-tail : match_flag_name flag it ≡ it → find_flag it (flag ∷ flags) ≡ find_flag it flags
  unfolding find_flag
  find_flag-tail e = rw e (rw (==_refl (length it)))

  -- A flag is found where it is the one that the test picks.
  find_flag-if :
      (test : Bool) (rest : Bytes) (found : Option Flag)
      → match_flag_name flag it ≡ (if test then rest else it)
      → same_place rest it ≡ false
      → find_flag it flags ≡ found
      → find_flag it (flag ∷ flags) ≡ (if test then some flag else found)
  find_flag-if true rest found e apart r = find_flag-head (rw e apart)
  find_flag-if false rest found e apart r = find_flag-tail e ∙ r

same_place-long : (name rest : Bytes) → same_place rest (long_flag name rest) ≡ false
same_place-long name rest = ground (arith, length-append name rest)

-- The loop over the flags finds the first flag with that name.
pub find_flag-long :
    (flags : List Flag) (name rest : Bytes)
    → IsName name
    → IsBoundary rest
    → find_flag (long_flag name rest) flags ≡ lookup_long name flags
unfolding lookup_long
find_flag-long [] name rest h b = find_flag-nil (long_flag name rest)
find_flag-long (flag ∷ flags) name rest h b =
    find_flag-if flag flags (long_flag name rest) (same_text flag.long_name name) rest _
      (match_flag_name-long flag name rest h b) (same_place-long name rest)
      (find_flag-long flags name rest h b)

pub find_flag-short :
    (flags : List Flag) (c : ℕ) (rest : Bytes)
    → c ≢ b'-'
    → is_space c ≡ false
    → find_flag (short_flag c rest) flags ≡ lookup_short c flags
unfolding lookup_short
find_flag-short [] c rest dash space = find_flag-nil (short_flag c rest)
find_flag-short (flag ∷ flags) c rest dash space =
    find_flag-if flag flags (short_flag c rest) (c == flag.short_name) rest _
      (match_flag_name-short flag c rest dash space) (ground arith)
      (find_flag-short flags c rest dash space)
