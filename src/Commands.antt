-- ===== src/Commands.antt =====
-- src/commands/command.c with its header: the table of commands, and how arguments are run through it.
-- A text is the list of its characters; the messages that are printed are left out. A command works
-- on a state `S`, which stands for the variables that its function changes.
pub mod Boot
pub mod Options
use wolf_cpuemulator.Common.{
  ℕ, ◌+◌, ◌%◌, ◌^◌, Bool, true, false, ◌==◌, ◌&&◌, ltb, if◌then◌else◌, Option, none, some, List, [],
  ◌∷◌, ◌++◌, length, u8,
}
use wolf_cpuemulator.Common.Partial.{◌>>=◌}

-- `!strcmp(a, b)`
unfoldable pub same_text : List ℕ → List ℕ → Bool
same_text [] [] = true
same_text [] (y ∷ ys) = false
same_text (x ∷ xs) [] = false
same_text (x ∷ xs) (y ∷ ys) = x == y && same_text xs ys

-- CMD_PARSER_OBJECT, without its description; `none` is a NULL function.
pub record CmdParserObject (S : Type 0) : Type 0 where
  pub cmd : List ℕ
  pub op_func : Option (List ℕ → S → ℕ × S)

-- CMD_PARSER_MANAGER, whose `cmdLen` is the length of the list
pub record CmdParserManager (S : Type 0) : Type 0 where
  pub objects : List (CmdParserObject S)

abbrev max_objects : ℕ
max_objects = 101

module _ {S : Type 0} where
  -- The loop of `trigger_command`: the function of the first object of that name
  unfoldable pub find_object : List (CmdParserObject S) → List ℕ → Option (List ℕ → S → ℕ × S)
  unfolding same_text
  find_object [] cmd = none
  find_object (o ∷ objects) cmd = if same_text o.cmd cmd then o.op_func else find_object objects cmd

  unfoldable pub trigger_command : CmdParserManager S → List ℕ → List ℕ → S → ℕ × S
  unfolding find_object
  trigger_command manager cmd arg s = elim (find_object manager.objects cmd) [
    | none ↦ (255, s)
    | some op_func ↦ let (status, s') = op_func arg s in (u8 status, s')
  ]

  -- A store past the array of objects is `none`.
  unfoldable pub register_command :
      CmdParserManager S → CmdParserObject S → Option (CmdParserManager S)
  register_command manager object =
      if ltb (length manager.objects) max_objects
      then some (record { objects = manager.objects ++ object ∷ [] })
      else none

  -- The loop of `exec_cmd` over the options and their arguments
  unfoldable pub run_options : CmdParserManager S → List (List ℕ) → S → ℕ × S
  run_options manager (cmd ∷ arg ∷ rest) s =
      let (status, s') = trigger_command manager cmd arg s in
      let next = run_options manager rest s' in if status == 0 then next else (status, s')
  run_options manager other s = (0, s)

  -- `argv` with the name of the program at its head
  unfoldable pub exec_cmd : CmdParserManager S → List (List ℕ) → S → ℕ × S
  unfolding run_options
  exec_cmd manager argv s =
      if length argv % 2 == 0
      then trigger_command manager (b'-' ∷ b'h' ∷ b'e' ∷ b'l' ∷ b'p' ∷ [])
          (b'h' ∷ b'e' ∷ b'l' ∷ b'p' ∷ []) s
      else elim argv [ [] ↦ (0, s) | name ∷ options ↦ run_options manager options s ]
