-- ===== src/Repl/Command/Total.antt =====
-- The loop of `match_flags` ends: each flag that is matched is passed.
use xendbg.Repl.Command.Words.{length-skip_spaces}
use xendbg.Prelude.{
  some_injective, ℕ, zero, suc, ◌+◌, ◌≤◌, ◌<◌, Bool, true, false, ◌≡◌, ◌≢◌, refl, none, some,
  Option-cases, Bool-cases, List, [], ◌∷◌, ◌==◌, ==_refl, ==_iff, Bytes, All, length, drop, Result,
  ok, err, ◌>>=◌, inl, inr, arith,
}
use xendbg.Text.{skip_spaces, StoulError}
use xendbg.Repl.Scan.{same_place, text_between, next_char, next_not_char, next_whitespace}
use xendbg.Repl.Command.{
  Argument, Flag, CommandFault, out_of_fuel, ArgsHandle, put, put_flag, FlagsHandle,
}
use xendbg.Repl.Command.Match.{
  from_stoul, value_taken, match_args, match_args_from, match_dashes, match_flag_name, of_flag,
  match_flag, find_flag, skip_unknown, match_flag_or_skip, match_flags_from, match_flags, Flagged,
}

-- A matcher moves forward, if at all.
abbrev pub IsForward : Argument → Type 0
IsForward arg = (s r : Bytes) → arg.matcher s ≡ ok r → length r ≤ length s

abbrev pub IsForwardFlag : Flag → Type 0
IsForwardFlag flag = All IsForward flag.args

length-next_not_char : (c : ℕ) (s : Bytes) → length (next_not_char c s) ≤ length s
unfolding next_not_char
length-next_not_char c [] = omega arith
length-next_not_char c (d ∷ s) = ground (arith, length-next_not_char c s)

length-next_whitespace : (s : Bytes) → length (next_whitespace s) ≤ length s
unfolding next_whitespace
length-next_whitespace [] = omega arith
length-next_whitespace (c ∷ s) = ground (arith, length-next_whitespace s)

length-drop_one : (s : Bytes) → length (drop 1 s) ≤ length s
length-drop_one [] = omega arith
length-drop_one (c ∷ s) = omega arith

length-match_dashes :
    (flag : Flag) (begin flag_start next_ws : Bytes)
    → length flag_start ≤ length begin
    → length next_ws ≤ length flag_start
    → length (match_dashes flag begin flag_start next_ws) ≤ length begin
unfolding match_dashes
length-match_dashes flag begin flag_start next_ws h k = ground (arith, length-drop_one flag_start)

length-match_flag_name : (flag : Flag) (s : Bytes) → length (match_flag_name flag s) ≤ length s
unfolding match_flag_name
length-match_flag_name flag s =
    let it = skip_spaces s in
    let bound =
      length-match_dashes flag it (next_not_char b'-' it) (next_whitespace (next_not_char b'-' it))
        (length-next_not_char b'-' it) (length-next_whitespace (next_not_char b'-' it)) in
    omega (arith, length-skip_spaces s)

-- What a call came to: it did not run out of fuel, and did not move back.
abbrev Ends : {H : Type 0} → ℕ → Result CommandFault (Bytes × H) → Type 0
Ends size (ok (r, h)) = length r ≤ size
Ends size (err out_of_fuel) = ⊥
Ends size (err _) = Unit

Ends-le : {H : Type 0} (m n : ℕ) (r : Result CommandFault (Bytes × H)) → m ≤ n → Ends m r → Ends n r
Ends-le m n (ok (s, h)) le e = omega arith
Ends-le m n (err out_of_fuel) le e = e
Ends-le m n (err f) le e = tt

module _ {H : Type 0} (size : ℕ) where
  from_stoul-Ends :
      (m : Result StoulError Bytes) (next : Bytes → Result CommandFault (Bytes × H))
      → ((r : Bytes) → m ≡ ok r → Ends size (next r))
      → Ends size (from_stoul m >>= next)
  from_stoul-Ends (err e) next h = tt
  from_stoul-Ends (ok r) next h = h r refl

  value_taken-Ends :
      (arg : Argument) (it arg_end : Bytes) (next : Bytes → Result CommandFault (Bytes × H))
      → ((value : Bytes) → Ends size (next value))
      → Ends size (value_taken arg it arg_end >>= next)
  unfolding value_taken
  value_taken-Ends arg it arg_end next h = elim (Bool-cases (same_place arg_end it)) [
    | inl e ↦
        rw e (elim (Bool-cases arg.is_optional) [
          | inl o ↦ rw o (h arg.default_value)
          | inr o ↦ rw o tt
        ])
    | inr e ↦ rw e (h (text_between it arg_end))
  ]

match_args_from-Ends :
    (args : List Argument) (handle : ArgsHandle) (s : Bytes)
    → All IsForward args
    → Ends (length s) (match_args_from args handle s)
unfolding match_args_from
match_args_from-Ends [] handle s all = omega arith
match_args_from-Ends (arg ∷ args) handle s (forward, all) =
    from_stoul-Ends (length s) (arg.matcher (skip_spaces s)) _ (λ r e.
      value_taken-Ends (length s) arg (skip_spaces s) r _ (λ value.
        Ends-le (length r) (length s) (match_args_from args (put arg value handle) r)
          (omega (arith, forward (skip_spaces s) r e, length-skip_spaces s))
          (match_args_from-Ends args (put arg value handle) r all)))

of_flag-Ends :
    {H : Type 0} (size : ℕ) (flag : Flag) (r : Result CommandFault (Bytes × H))
    → Ends size r
    → Ends size (of_flag flag r)
of_flag-Ends size flag (ok (s, h)) e = e
of_flag-Ends size flag (err out_of_fuel) e = e
of_flag-Ends size flag (err f) e = tt

-- A flag that is found is passed.
match_flag-Ends :
    (size : ℕ) (flag : Flag) (s : Bytes)
    → length s ≤ suc size
    → IsForwardFlag flag
    → same_place (match_flag_name flag s) s ≡ false
    → Ends size (match_flag flag s)
unfolding match_flag match_args
match_flag-Ends size flag s le all moved =
    let rest = match_flag_name flag s in
    rw moved (
      Ends-le (length rest) size (of_flag flag (match_args_from flag.args [] rest))
        (ground (arith, length-match_flag_name flag s))
        (of_flag-Ends (length rest) flag (match_args_from flag.args [] rest)
          (match_args_from-Ends flag.args [] rest all)))

find_flag-moved :
    (flags : List Flag) (s : Bytes) {flag : Flag}
    → All IsForwardFlag flags
    → find_flag s flags ≡ some flag
    → IsForwardFlag flag × (same_place (match_flag_name flag s) s ≡ false)
unfolding find_flag
find_flag-moved [] s all h = cc
find_flag-moved (f ∷ flags) s {flag} (forward, all) h =
    elim (Bool-cases (same_place (match_flag_name f s) s)) [
      | inl e ↦ find_flag-moved flags s all (rw e at h)
      | inr e ↦ let here : f ≡ flag = some_injective (rw e at h) in rw (← here) (forward, e)
    ]

next_char-here : (c : ℕ) (s : Bytes) → c ≡ b'-' → next_char b'-' (c ∷ s) ≡ c ∷ s
unfolding next_char
next_char-here c s e = ground arith

skip_unknown-here :
    (handle : FlagsHandle) (it : Bytes) (again : Bytes → Flagged)
    → skip_unknown handle it it again ≡ ok (next_whitespace (drop 1 it), handle)
unfolding skip_unknown
skip_unknown-here handle it again = rw (==_refl (length it))

unknown-Ends :
    (ignore : Bool) (handle : FlagsHandle) (c : ℕ) (s : Bytes)
    (again : FlagsHandle → Bytes → Flagged)
    → c ≡ b'-'
    → Ends (suc (length s)) (match_flag_or_skip ignore handle (c ∷ s) none again)
unfolding match_flag_or_skip
unknown-Ends false handle c s again e = tt
unknown-Ends true handle c s again e =
    rw (next_char-here c s e) (
      rw (skip_unknown-here handle (c ∷ s) (again handle))
        (omega (arith, length-next_whitespace s)))

-- The round after a flag: the next one starts behind it.
flag_round-Ends :
    (size : ℕ) (flag : Flag) (handle : FlagsHandle) (r : Result CommandFault (Bytes × ArgsHandle))
    (again : FlagsHandle → Bytes → Flagged)
    → Ends size r
    → ((h : FlagsHandle) (t : Bytes) → length t ≤ size → Ends size (again h t))
    → Ends size (r >>= (λ found. again (put_flag flag found.1 handle) (skip_spaces found.0)))
flag_round-Ends size flag handle (ok (t, args)) again e next =
    next (put_flag flag args handle) (skip_spaces t) (omega (arith, length-skip_spaces t))
flag_round-Ends size flag handle (err out_of_fuel) again e next = e
flag_round-Ends size flag handle (err f) again e next = tt

match_flags_from-Ends :
    (fuel : ℕ) (ignore : Bool) (flags : List Flag) (handle : FlagsHandle) (s : Bytes)
    → length s < fuel
    → All IsForwardFlag flags
    → Ends (length s) (match_flags_from fuel ignore flags handle s)
unfolding match_flags_from match_flag_or_skip
match_flags_from-Ends zero ignore flags handle s small all = absurd (omega arith)
match_flags_from-Ends (suc fuel) ignore flags handle [] small all = omega arith
match_flags_from-Ends (suc fuel) ignore flags handle (c ∷ s) small all =
    elim (Bool-cases (c == b'-')) [
      | inr e ↦ rw e (omega arith)
      | inl e ↦ rw e (elim (Option-cases (find_flag (c ∷ s) flags)) [
        | inl n ↦ rw n (unknown-Ends ignore handle c s _ ((==_iff c b'-').0 e))
        | inr (flag, found) ↦
            let moved = find_flag-moved flags (c ∷ s) all found in
            rw found (
              Ends-le (length s) (suc (length s)) _ (omega arith) (
                flag_round-Ends (length s) flag handle _ (match_flags_from fuel ignore flags)
                  (match_flag-Ends (length s) flag (c ∷ s) (omega arith) moved.0 moved.1)
                  (λ h t le.
                    Ends-le (length t) (length s) _ le
                      (match_flags_from-Ends fuel ignore flags h t (omega arith) all))))
      ])
    ]

Ends-ne-out_of_fuel :
    {H : Type 0} (size : ℕ) (r : Result CommandFault (Bytes × H))
    → Ends size r
    → r ≢ err out_of_fuel
Ends-ne-out_of_fuel size (ok (s, h)) e p = cc
Ends-ne-out_of_fuel size (err out_of_fuel) e p = absurd e
Ends-ne-out_of_fuel size (err f) e p = cc

-- The loop of `match_flags` ends on any line, where the matchers of the flags' arguments move forward,
-- if at all.
pub match_flags-ne-out_of_fuel :
    (flags : List Flag) (ignore : Bool) (line : Bytes)
    → All IsForwardFlag flags
    → match_flags flags ignore line ≢ err out_of_fuel
unfolding match_flags
match_flags-ne-out_of_fuel flags ignore line all =
    Ends-ne-out_of_fuel (length line) _
      (match_flags_from-Ends (length line + 1) ignore flags [] line (omega arith) all)
