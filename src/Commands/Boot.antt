-- ===== src/Commands/Boot.antt =====
-- The options of the emulator: src/commands/cmd_load_bios.c, cmd_load_debug.c, cmd_load_help.c and
-- cmd_load_rootfs.c, with src/tools/tools.c and main.c. What the system gives for the name of a
-- file is a parameter.
use wolf_cpuemulator.Common.{
  ℕ, zero, suc, ◌==◌, if◌then◌else◌, Option, none, some, List, [], ◌∷◌, replicate,
}
use wolf_cpuemulator.Common.Partial.{◌>>=◌}
use wolf_cpuemulator.Commands.{CmdParserObject, CmdParserManager, register_command, exec_cmd}

-- What `fopen` and `fread` give: no file, an error while it is read, or its bytes
pub data FileRead : Type 0 where
  missing broken : FileRead
  bytes : List ℕ → FileRead

-- CMD_CONFIGURATIONS; `none` is a BIOS file that is NULL.
pub record CmdConfigurations : Type 0 where
  pub debug : ℕ
  pub bios : Option (List ℕ)

-- `fread` into a zeroed buffer of `n` bytes
unfoldable pub fill : ℕ → List ℕ → List ℕ
fill zero content = []
fill (suc n) [] = 0 ∷ fill n []
fill (suc n) (b ∷ content) = b ∷ fill n content

unfoldable pub read_bin : FileRead → ℕ → Option (List ℕ)
unfolding fill
read_bin missing max = none
read_bin broken max = none
read_bin (bytes content) max = some (fill max content)

abbrev BootCommand : Type 0
BootCommand = CmdParserObject CmdConfigurations

module _ (files : List ℕ → FileRead) where
  unfoldable pub load_bios_execer : List ℕ → CmdConfigurations → ℕ × CmdConfigurations
  unfolding read_bin
  load_bios_execer name config = elim (read_bin (files name) 1024) [
    | none ↦ (255, config)
    | some buf ↦ (0, record config { bios = some buf })
  ]

  unfoldable pub init_load_bios_command : BootCommand
  unfolding load_bios_execer
  init_load_bios_command = record { cmd = b'-' ∷ b'l' ∷ b'b' ∷ []; op_func = some load_bios_execer }

  unfoldable pub init_help_command : BootCommand
  init_help_command = record {
    cmd = b'-' ∷ b'h' ∷ b'e' ∷ b'l' ∷ b'p' ∷ [];
    op_func = some (λ args config. (1, config));
  }

  unfoldable pub init_load_rootfs_command : BootCommand
  init_load_rootfs_command = record {
    cmd = b'-' ∷ b'l' ∷ b'r' ∷ [];
    op_func = some (λ args config. (0, config));
  }

  unfoldable pub init_debug_command : BootCommand
  init_debug_command = record {
    cmd = b'-' ∷ b'd' ∷ b'b' ∷ b'g' ∷ [];
    op_func = some (λ args config. (0, record config { debug = 1 }));
  }

  unfoldable pub init_command_system : Option (CmdParserManager CmdConfigurations)
  init_command_system = do
    m1 ← register_command (record { objects = [] }) init_load_bios_command
    m2 ← register_command m1 init_help_command
    m3 ← register_command m2 init_load_rootfs_command
    register_command m3 init_debug_command

  -- `main`, up to the start of the machine: its configuration, if it is started. The global variable
  -- starts as zero.
  unfoldable pub main : List (List ℕ) → Option CmdConfigurations
  main argv = do
    manager ← init_command_system
    let (status, config) = exec_cmd manager argv (record { debug = 0; bios = none })
    if status == 0 then some config else none

-- `load_bios`: 1024 pointers' worth of zeros stand in for a file that was not loaded.
unfoldable pub load_bios : CmdConfigurations → CmdConfigurations
load_bios config = elim config.bios [
  | none ↦ record config { bios = some (replicate 8192 0) }
  | some file ↦ config
]
