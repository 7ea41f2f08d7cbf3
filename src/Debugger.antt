-- ===== src/Debugger.antt =====
-- src/debug/debug_log.c: the table of breakpoints, and the commands of the debugger. A line of input
-- is the list of its characters; what is printed is left out. `strtoul` of the C library, in base 16,
-- is a parameter: it gives a number and the error number that it sets.
pub mod Table
pub mod Prompt
use wolf_cpuemulator.Common.{
  ℕ, zero, suc, ◌==◌, ◌!=◌, if◌then◌else◌, Option, none, some, List, [], ◌∷◌, length, is_set, u32,
  get_or, leb, ◌&&&◌,
}
use wolf_cpuemulator.Common.Partial.{◌>>=◌}
use wolf_cpuemulator.Commands.{CmdParserObject, CmdParserManager, trigger_command, register_command}

abbrev debug_cmd_status_continue : ℕ
debug_cmd_status_continue = 0xf0

-- BREAKPOINT_CONTROLLER: the chain of each of the 32768 places
pub record BreakpointController : Type 0 where
  pub hashtable : ℕ → List ℕ

abbrev pub place_of : ℕ → ℕ
place_of pc = pc &&& 32767

-- The chain with a new element at its end, unless it has one for `pc`
unfoldable pub add_element : List ℕ → ℕ → List ℕ
add_element [] pc = pc ∷ []
add_element (break_pc ∷ chain) pc =
    if break_pc == pc then break_pc ∷ chain else break_pc ∷ add_element chain pc

unfoldable pub breakpoint_set : BreakpointController → ℕ → BreakpointController
unfolding add_element
breakpoint_set ctrl pc = record {
  hashtable = λ i. if i == place_of pc then add_element (ctrl.hashtable i) pc else ctrl.hashtable i;
}

unfoldable pub find_element : List ℕ → ℕ → Option ℕ
find_element [] pc = none
find_element (break_pc ∷ chain) pc = if break_pc == pc then some break_pc else find_element chain pc

unfoldable pub breakpoint_get : BreakpointController → ℕ → Option ℕ
unfolding find_element
breakpoint_get ctrl pc = find_element (ctrl.hashtable (place_of pc)) pc

-- The controller's static storage, and what `free_break_execution` leaves
unfoldable pub no_breakpoints : BreakpointController
no_breakpoints = record { hashtable = λ _. [] }

unfoldable pub free_break_execution : BreakpointController → BreakpointController
free_break_execution ctrl = record ctrl { hashtable = λ i. [] }

abbrev base_bios : ℕ
base_bios = 0xfffffe00

-- The part of `init_break_execution` that sets a breakpoint at the first instruction
unfoldable pub init_break_execution : ℕ → BreakpointController → BreakpointController
unfolding breakpoint_set
init_break_execution debug ctrl = if is_set debug then breakpoint_set ctrl base_bios else ctrl

module _ (strtoul : List ℕ → ℕ × ℕ) where
  unfoldable pub bp_cmd_execer : List ℕ → BreakpointController → ℕ × BreakpointController
  unfolding breakpoint_set
  bp_cmd_execer args ctrl =
      let (addr, errno) = strtoul args in
      if errno != 0
      then (1, ctrl)
      else if is_set (addr &&& 3)
      then (2, ctrl)
      else (0, breakpoint_set ctrl (u32 addr))

  unfoldable pub bp_cmd : CmdParserObject BreakpointController
  unfolding bp_cmd_execer
  bp_cmd = record { cmd = b'b' ∷ []; op_func = some bp_cmd_execer }

  unfoldable pub init_debug_cmd_system : Option (CmdParserManager BreakpointController)
  unfolding bp_cmd register_command
  init_debug_cmd_system = register_command (record { objects = [] }) bp_cmd

-- `strtok` with the separator " ": the word that a line goes on with, and the words behind it
unfoldable pub push_word : List ℕ → List (List ℕ) → List (List ℕ)
push_word [] words = words
push_word (c ∷ word) words = (c ∷ word) ∷ words

unfoldable pub split_words : List ℕ → List ℕ × List (List ℕ)
unfolding push_word
split_words [] = ([], [])
split_words (c ∷ line) =
    let (word, words) = split_words line in
    if c == b' ' then ([], push_word word words) else (c ∷ word, words)

unfoldable pub take_words : ℕ → List (List ℕ) → List (List ℕ)
take_words zero words = []
take_words (suc n) [] = []
take_words (suc n) (word ∷ words) = word ∷ take_words n words

-- The size of the buffer `cmd`
abbrev pub cmd_size : ℕ
cmd_size = 1001

-- The characters before the first zero
unfoldable pub c_string : List ℕ → List ℕ
c_string [] = []
c_string (c ∷ text) = let rest = c_string text in if c == 0 then [] else c ∷ rest

unfoldable pub drop : ℕ → List ℕ → List ℕ
drop zero text = text
drop (suc n) [] = []
drop (suc n) (c ∷ text) = drop n text

-- The lines that are left behind one that was read: of a long one, what was not stored is read as the
-- next line.
unfoldable pub lines_left : List ℕ → List (List ℕ) → List (List ℕ)
lines_left line lines = if leb cmd_size (length line) then drop cmd_size line ∷ lines else lines

abbrev max_args : ℕ
max_args = 101

module _ {S : Type 0} where
  unfoldable pub exec_debug_cmd : CmdParserManager S → List (List ℕ) → S → ℕ × S
  exec_debug_cmd manager (cmd ∷ arg ∷ []) s = trigger_command manager cmd arg s
  exec_debug_cmd manager other s =
      trigger_command manager (b'h' ∷ []) (b'h' ∷ b'e' ∷ b'l' ∷ b'p' ∷ []) s

  unfoldable pub parse_cmd : CmdParserManager S → List ℕ → S → ℕ × S
  unfolding split_words push_word take_words
  parse_cmd manager line s =
      let (word, words) = split_words line in
      exec_debug_cmd manager (take_words max_args (push_word word words)) s

  -- `input_cmd` stores at most 1001 characters of a line. If it stores so many, and none of them is
  -- zero, C leaves undefined what `parse_cmd` does with them; a line that is so long and does not
  -- begin with c is not followed further, which is `none`.
  unfoldable pub input_cmd : CmdParserManager S → List ℕ → S → Option (ℕ × S)
  input_cmd manager line s =
      let parsed = parse_cmd manager (c_string line) s in
      if get_or line 0 0 == b'c'
      then some (debug_cmd_status_continue, s)
      else if leb cmd_size (length line)
      then none
      else some parsed

  -- The loop of `break_execution` over the lines of the input; a long line that does not go on is
  -- `none`. Behind the last line the loop never ends, which is `none` too: every character is then the
  -- end of the file.
  unfoldable pub prompt : CmdParserManager S → List (List ℕ) → S → Option (S × List (List ℕ))
  unfolding input_cmd lines_left
  prompt manager [] s = none
  prompt manager (line ∷ lines) s = input_cmd manager line s >>= λ r.
      let rest = prompt manager lines r.1 in
      if r.0 == debug_cmd_status_continue then some (r.1, lines_left line lines) else rest

unfoldable pub break_execution :
    CmdParserManager BreakpointController
    → ℕ
    → List (List ℕ)
    → BreakpointController
    → Option (BreakpointController × List (List ℕ))
break_execution manager pc lines ctrl = elim (breakpoint_get ctrl pc) [
  | none ↦ some (ctrl, lines)
  | some elem ↦ prompt manager lines ctrl
]
