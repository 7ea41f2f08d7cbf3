-- ===== src/Debugger/Prompt.antt =====
-- What the debugger does with its input, at a breakpoint and elsewhere.
use wolf_cpuemulator.Common.{
  ℕ, ◌≡◌, Bool, false, ◌==◌, ◌!=◌, if◌then◌else◌, Option, none, some, List, [], ◌∷◌, length, leb,
  get_or, is_set, u32, ◌&&&◌,
}
use wolf_cpuemulator.Commands.{CmdParserManager, same_text}
use wolf_cpuemulator.Debugger.{
  BreakpointController, breakpoint_set, bp_cmd, push_word, split_words, take_words, c_string, drop,
}

-- The words of a line
abbrev pub words_of : List ℕ → List (List ℕ)
words_of line =
    let (word, words) = split_words (c_string line) in take_words 101 (push_word word words)

module _ (strtoul : List ℕ → ℕ × ℕ) where
  -- The address that a text asks for: a number that `strtoul` reads without an error, and whose two
  -- lowest bits are clear
  abbrev pub address : List ℕ → Option ℕ
  address arg =
      let (addr, errno) = strtoul arg in
      if errno != 0 then none else if is_set (addr &&& 3) then none else some (u32 addr)

  -- What the words of a line ask for: a breakpoint, if there are two and the first one is b
  abbrev pub asked_for : List (List ℕ) → Option ℕ
  asked_for (cmd ∷ arg ∷ []) = if same_text (b'b' ∷ []) cmd then address arg else none
  asked_for other = none

  abbrev pub set_optional : Option ℕ → BreakpointController → BreakpointController
  set_optional none ctrl = ctrl
  set_optional (some pc) ctrl = breakpoint_set ctrl pc

  -- A line that begins with c, and one that fills the buffer of `input_cmd`
  abbrev pub continues : List ℕ → Bool
  continues line = get_or line 0 0 == b'c'

  abbrev is_long : List ℕ → Bool
  is_long line = leb 1001 (length line)

  -- The session: the lines up to the first one that begins with c set their breakpoints, and what is
  -- behind the first 1001 characters of that line is left. A line before it must be shorter.
  abbrev pub session :
      List (List ℕ) → BreakpointController → Option (BreakpointController × List (List ℕ))
  session [] ctrl = none
  session (line ∷ lines) ctrl =
      if continues line
      then some (ctrl, if is_long line then drop 1001 line ∷ lines else lines)
      else if is_long line
      then none
      else session lines (set_optional (asked_for (words_of line)) ctrl)

  abbrev manager : CmdParserManager BreakpointController
  manager = record { objects = bp_cmd strtoul ∷ [] }

  Runs : ℕ × BreakpointController → Option ℕ → BreakpointController → Type 0
  Runs r asked ctrl = ((r.0 == 240) ≡ false) × (r.1 ≡ set_optional asked ctrl)
