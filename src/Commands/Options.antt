-- ===== src/Commands/Options.antt =====
-- Which arguments start the emulator of main.c, and with what configuration.
use wolf_cpuemulator.Common.{
  ℕ, ◌%◌, ◌≡◌, ◌∙◌, refl, ap, arith, Bool, true, false, ◌==◌, ◌&&◌, ◌||◌, if◌then◌else◌, Option,
  none, some, List, [], ◌∷◌, length, Bool-cases, inl, inr,
}
use wolf_cpuemulator.Commands.{
  CmdParserManager, same_text, find_object, trigger_command, run_options, exec_cmd,
  register_command,
}
use wolf_cpuemulator.Commands.Boot.{
  FileRead, missing, broken, bytes, CmdConfigurations, fill, read_bin, load_bios_execer, main,
  init_load_bios_command, init_help_command, init_load_rootfs_command, init_debug_command,
  init_command_system,
}

abbrev pub Options : Type 0
Options = List (List ℕ × List ℕ)

-- The arguments that options and their values make up
abbrev pub arguments : Options → List (List ℕ)
arguments [] = []
arguments ((cmd, arg) ∷ rest) = cmd ∷ arg ∷ arguments rest

abbrev pub lb : List ℕ
lb = b'-' ∷ b'l' ∷ b'b' ∷ []

abbrev pub help : List ℕ
help = b'-' ∷ b'h' ∷ b'e' ∷ b'l' ∷ b'p' ∷ []

abbrev lr : List ℕ
lr = b'-' ∷ b'l' ∷ b'r' ∷ []

abbrev pub dbg : List ℕ
dbg = b'-' ∷ b'd' ∷ b'b' ∷ b'g' ∷ []

abbrev is_readable : FileRead → Bool
is_readable missing = false
is_readable broken = false
is_readable (bytes content) = true

abbrev image : FileRead → Option (List ℕ)
image missing = none
image broken = none
image (bytes content) = some (fill 1024 content)

module _ (files : List ℕ → FileRead) where
  -- An option is accepted: a BIOS file that can be read, a root file system, or the debug mode.
  abbrev is_accepted : List ℕ → List ℕ → Bool
  is_accepted cmd arg =
      if same_text lb cmd
      then is_readable (files arg)
      else if same_text help cmd
      then false
      else (same_text lr cmd || same_text dbg cmd)

  abbrev applied : List ℕ → List ℕ → CmdConfigurations → CmdConfigurations
  applied cmd arg config =
      if same_text lb cmd
      then record config { bios = image (files arg) }
      else if same_text lr cmd
      then config
      else record config { debug = 1 }

  abbrev pub all_accepted : Options → Bool
  all_accepted [] = true
  all_accepted ((cmd, arg) ∷ rest) = is_accepted cmd arg && all_accepted rest

  -- The options take effect in their order, so a later one replaces what an earlier one has set.
  abbrev pub configured : Options → CmdConfigurations → CmdConfigurations
  configured [] config = config
  configured ((cmd, arg) ∷ rest) config = configured rest (applied cmd arg config)

  abbrev manager : CmdParserManager CmdConfigurations
  manager = record {
    objects =
        init_load_bios_command files
        ∷ init_help_command files
        ∷ init_load_rootfs_command files
        ∷ init_debug_command files
        ∷ [];
  }

  manager_eq : init_command_system files ≡ some manager
  unfolding init_command_system register_command
  manager_eq = refl

  load_bios_lem :
      (name : List ℕ) (config : CmdConfigurations)
      → load_bios_execer files name config ≡ (
          if is_readable (files name)
          then (0, record config { bios = image (files name) })
          else (255, config))
  unfolding load_bios_execer read_bin
  load_bios_lem name config = ground arith

  trigger_lem :
      (cmd arg : List ℕ) (config : CmdConfigurations)
      → let r = trigger_command manager cmd arg config in ((r.0 == 0) ≡ is_accepted cmd arg)
  unfolding trigger_command find_object init_load_bios_command init_help_command
      init_load_rootfs_command init_debug_command
  trigger_lem cmd arg config = ground (arith, load_bios_lem arg config)

  trigger_state :
      (cmd arg : List ℕ) (config : CmdConfigurations)
      → is_accepted cmd arg ≡ true
      → (trigger_command manager cmd arg config).1 ≡ applied cmd arg config
  unfolding trigger_command find_object init_load_bios_command init_help_command
      init_load_rootfs_command init_debug_command
  trigger_state cmd arg config h = ground (arith, load_bios_lem arg config)

  -- What `main` makes of a status and a configuration
  abbrev started : ℕ × CmdConfigurations → Option CmdConfigurations
  started r = if r.0 == 0 then some r.1 else none

  run_options_lem :
      (options : Options) (config : CmdConfigurations)
      → started (run_options manager (arguments options) config)
        ≡ (if all_accepted options then some (configured options config) else none)
  unfolding run_options
  run_options_lem [] config = refl
  run_options_lem ((cmd, arg) ∷ rest) config =
      let r = trigger_command manager cmd arg config in
      let ok = trigger_lem cmd arg config in
      elim (Bool-cases (is_accepted cmd arg)) [
        | inl e ↦
            rw (ok, e)
              (run_options_lem rest (r.1)
                ∙ ap (λ c. if all_accepted rest then some (configured rest c) else none)
                    (trigger_state cmd arg config e))
        | inr e ↦ rw (ok, e) (rw (ok, e))
      ]

  length-arguments : (options : Options) → length (arguments options) % 2 ≡ 0
  length-arguments [] = refl
  length-arguments ((cmd, arg) ∷ rest) = omega (arith, length-arguments rest)

  -- Called with any options, each with its value, the emulator starts exactly if every option is a
  -- BIOS file that can be read, a root file system, or the debug mode; and then with the
  -- configuration in which they took effect one after the other.
  pub main_lem :
      (name : List ℕ) (options : Options)
      → main files (name ∷ arguments options) ≡ (
          if all_accepted options
          then some (configured options (record { debug = 0; bios = none }))
          else none)
  unfolding main exec_cmd
  main_lem name options =
      let odd : (length (name ∷ arguments options) % 2 == 0) ≡ false =
        ground (arith, length-arguments options) in
      rw (manager_eq, odd) (run_options_lem options (record { debug = 0; bios = none }))
