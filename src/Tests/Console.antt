-- ===== src/Tests/Console.antt =====
-- The theorems on the command line and the debugger at concrete inputs.
use wolf_cpuemulator.Common.{ℕ, ◌≡◌, refl, true, if◌then◌else◌, none, some, List, [], ◌∷◌}
use wolf_cpuemulator.Commands.{same_text}
use wolf_cpuemulator.Commands.Boot.{FileRead, missing, bytes, main}
use wolf_cpuemulator.Commands.Options.{
  Options, arguments, all_accepted, configured, lb, dbg, main_lem,
}
use wolf_cpuemulator.Debugger.{breakpoint_get, free_break_execution}
use wolf_cpuemulator.Debugger.Table.{set_all, member, IsTable, set_all_lem}

-- One file can be read: its name is b.
abbrev one_file : List ℕ → FileRead
one_file name = if same_text (b'b' ∷ []) name then bytes (1 ∷ 2 ∷ []) else missing

abbrev two_options : Options
two_options = (lb, b'b' ∷ []) ∷ (dbg, b't' ∷ []) ∷ []

main_lem_example : main one_file ((b'w' ∷ []) ∷ arguments two_options) ≡ (
    if all_accepted one_file two_options
    then some (configured one_file two_options (record { debug = 0; bios = none }))
    else none)
main_lem_example = main_lem one_file (b'w' ∷ []) two_options

accepts_both : all_accepted one_file two_options ≡ true
unfolding same_text
accepts_both = refl

set_all_lem_example :
    (breakpoint_get (set_all (4 ∷ 32772 ∷ 4 ∷ [])) 32772
      ≡ (if member 32772 (4 ∷ 32772 ∷ 4 ∷ []) then some 32772 else none))
    × IsTable (set_all (4 ∷ 32772 ∷ 4 ∷ []))
    × (breakpoint_get (free_break_execution (set_all (4 ∷ 32772 ∷ 4 ∷ []))) 32772 ≡ none)
set_all_lem_example = set_all_lem (4 ∷ 32772 ∷ 4 ∷ []) 32772

-- A reader of numbers that knows one text, which it reads as 8
abbrev reads_eight : List ℕ → ℕ × ℕ
reads_eight text = if same_text (b'8' ∷ []) text then (8, 0) else (0, 22)

-- b 8, and c
abbrev two_lines : List (List ℕ)
two_lines = (b'b' ∷ b' ' ∷ b'8' ∷ []) ∷ (b'c' ∷ []) ∷ []
