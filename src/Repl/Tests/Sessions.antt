-- ===== src/Repl/Tests/Sessions.antt =====
-- Lines of the REPL at concrete inputs, for a PV guest.
use xendbg.Prelude.{
  ℕ, zero, suc, drop, Bool-cases, inl, inr, true, false, ◌≡◌, ◌≢◌, refl, none, some, List, [], ◌∷◌,
  ◌++◌, Bytes, ok, err, ◌≤◌, length, arith,
}
use xendbg.Text.{skip_spaces, codes, is_space}
use xendbg.Registers.{same_text}
use xendbg.Xen.Sample.{accepting_pv}
use xendbg.Debugger.Pv.{DebuggerPv}
use xendbg.Server.Backends.{pv}
use xendbg.Repl.Scan.{match_word, next_whitespace, make_match_one_of, is_prefix}
use xendbg.Repl.Command.{make_argument, out_of_fuel}
use xendbg.Repl.Command.Match.{match_flags}
use xendbg.Repl.Command.Total.{match_flags-ne-out_of_fuel}
use xendbg.Repl.Command.Verb.{Verb, Command, group}
use xendbg.Repl.Command.Words.{IsWord, Reads}
use xendbg.Repl.Command.Flags.{lookup_short, IsUse, short_use}
use xendbg.Repl.Command.CommandLine.{lookup_verb, lookup_command, interpret_line-command_line}
use xendbg.Repl.Lines.{interpret_line, run_line, noticed, too_many_arguments}
use xendbg.Repl.Actions.{Action, examine_at, make_examine, word_size_flag, setup_repl, step}
use xendbg.Repl.Shell.{Shell, World}
use xendbg.Repl.Perform.{perform}
use xendbg.Repl.Quoting.{run_line-quoted}
use xendbg.Repl.Unattached.{perform-follows_null}
use xendbg.Repl.Unattached.Parts.{follows_null}
use xendbg.Repl.Tests.{guest, wrapper}

-- `memory show -w g rsp`, where the argument of the verb is a word.
abbrev show_verb : Verb Action
show_verb = record {
  name = codes "show";
  description = [];
  flags = word_size_flag ∷ [];
  args = make_argument (codes "expr") [] match_word none ∷ [];
  make_action = make_examine;
}

abbrev memory : Command Action
memory = group (codes "memory") [] (show_verb ∷ [])

memory-IsWord : IsWord (codes "memory")
unfolding is_space
memory-IsWord = (λ e. cc, (refl, (refl, (refl, (refl, (refl, (refl, tt)))))))

show-IsWord : IsWord (codes "show")
unfolding is_space
show-IsWord = (λ e. cc, (refl, (refl, (refl, (refl, tt)))))

g-Reads :
    (rest : Bytes)
    → make_match_one_of (codes "b" ∷ codes "h" ∷ codes "w" ∷ codes "g" ∷ []) (codes "g" ++ rest)
      ≡ ok rest
unfolding make_match_one_of is_prefix
g-Reads rest = refl

rsp-Reads : Reads (make_argument (codes "expr") [] match_word none) (codes "rsp")
unfolding next_whitespace is_space
rsp-Reads [] b = refl
rsp-Reads (c ∷ rest) b = ground arith

rsp-IsWord : IsWord (codes "rsp")
unfolding is_space
rsp-IsWord = (λ e. cc, (refl, (refl, (refl, tt))))

g-IsWord : IsWord (codes "g")
unfolding is_space
g-IsWord = (λ e. cc, (refl, tt))

w-IsUse : IsUse show_verb.flags (short_use word_size_flag (codes "g" ∷ []))
unfolding is_space lookup_short
w-IsUse = ((λ e. cc, refl, refl), (g-IsWord, (λ rest b. g-Reads rest), tt))

length-drop : (n : ℕ) (s : Bytes) → length (drop n s) ≤ length s
length-drop zero s = omega arith
length-drop (suc n) [] = omega arith
length-drop (suc n) (c ∷ s) = omega (arith, length-drop n s)

make_match_one_of-length :
    (options : List Bytes) (s r : Bytes) → make_match_one_of options s ≡ ok r → length r ≤ length s
unfolding make_match_one_of
make_match_one_of-length [] s r e = ground arith
make_match_one_of-length (opt ∷ options) s r e = elim (Bool-cases (is_prefix opt s)) [
  | inl p ↦ ground (arith, length-drop (length opt) s)
  | inr p ↦ make_match_one_of-length options s r (rw p at e)
]

interpret_line-command_line_example :
    interpret_line (memory ∷ []) (codes "memory show -w g rsp")
    ≡ ok (some (examine_at (codes "rsp") 8 1))
unfolding make_examine
interpret_line-command_line_example =
    interpret_line-command_line show_verb (short_use word_size_flag (codes "g" ∷ []) ∷ [])
      (codes "rsp" ∷ []) (w-IsUse, tt) (rsp-IsWord, rsp-Reads, tt)
      (unfold skip_spaces is_space in λ e. cc) (codes "memory") [] (show_verb ∷ []) (memory ∷ [])
      memory-IsWord show-IsWord (unfold lookup_verb same_text in refl)
      (unfold lookup_command same_text in refl)

match_flags-ne-out_of_fuel_example :
    match_flags (word_size_flag ∷ []) true (codes "-w -x --y 1") ≢ err out_of_fuel
match_flags-ne-out_of_fuel_example =
    match_flags-ne-out_of_fuel (word_size_flag ∷ []) true (codes "-w -x --y 1")
      ((make_match_one_of-length _, tt), tt)

run_line-quoted_example :
    run_line (setup_repl (λ s. none) []) [] (codes "guest attach \"vm\"")
    ≡ noticed (too_many_arguments (codes "vm\""))
run_line-quoted_example =
    run_line-quoted (λ s. none) [] [] 34 b'v' (codes "m\"") refl (unfold is_space in refl)

-- No other guest, and an event loop that ends at once.
abbrev world : World DebuggerPv
world = record {
  answers = record { entries = []; hvm = λ domid. none; name = λ domid. [] };
  attach_to = λ domain. ok guest;
  domid_of = λ d. 5;
  is_hvm = λ d. false;
  load_file = λ name. none;
  run_loop = λ d. (false, d);
}

abbrev alone : Shell DebuggerPv
alone = record {
  wrapper = record wrapper { debugger = none };
  vcpu_id = 0;
  max_vcpu_id = none;
  running = true;
  printed = [];
}

perform-follows_null_example :
    follows_null (perform accepting_pv (pv accepting_pv) world step alone) ≡ true
perform-follows_null_example =
    perform-follows_null accepting_pv (pv accepting_pv) world alone refl step

-- Two breakpoints, the first of them deleted, one more, and a line that is no command.
abbrev lines : List Bytes
lines =
    codes "breakpoint create 31"
    ∷ codes "breakpoint create 40"
    ∷ codes "breakpoint delete 1"
    ∷ codes "breakpoint create 50"
    ∷ codes "nothing"
    ∷ []

abbrev attached_shell : Shell DebuggerPv
attached_shell = record alone { wrapper = wrapper }
