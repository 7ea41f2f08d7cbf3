-- ===== src/Cpu/Writeback.antt =====
-- src/cpu_wb.c. The code indexes the 15 general registers by 5-bit numbers; `none` is an access
-- out of the array, which C leaves undefined.
use wolf_cpuemulator.Common.{ℕ, Bool, ◌==◌, ◌||◌, ◌&&◌, is_set, ltb, if◌then◌else◌, get_elem?, set}
use wolf_cpuemulator.Common.{Option, none, some, ◌>>◌}
use wolf_cpuemulator.Endian.{data32_mask_be, mov_be}
use wolf_cpuemulator.Cpu.State.{Cpu, max_gen_register_count}
use wolf_cpuemulator.Cpu.Registers.{write_reg_val}
use wolf_cpuemulator.Cpu.Execute.{exflag_mov_mem1}
use wolf_cpuemulator.Cpu.Isa.{icode_mov, icode_alu, icode_mlmr, icode_push, icode_pop}
use wolf_cpuemulator.Cpu.Isa.{icode_pushf, icode_popf, icode_zwc, icode_ocall, icode_ecall}
use wolf_cpuemulator.Cpu.Isa.{icode_ret, icode_rere, icode_lbcr, icode_lpgr, icode_lepv}
use wolf_cpuemulator.Cpu.Isa.{icode_lipv, icode_libr, icode_lebr, icode_rearg, is_rtype}

-- `gen_regs.r[i] = v`
unfoldable pub store_gen_reg : Cpu → ℕ → ℕ → Option Cpu
store_gen_reg cpu i v =
    if ltb i max_gen_register_count
    then some (record cpu { gen_regs = set cpu.gen_regs i v })
    else none

-- `write_reg_val` of the old register with the bytes that `code` enables replaced.
unfoldable pub merge_dest_reg : Cpu → ℕ → Option Cpu
merge_dest_reg cpu code =
    let t = cpu.temp_data_reg in
    elim (get_elem? cpu.gen_regs t.dest_reg) [
      | none ↦ none
      | some old ↦ some (write_reg_val cpu t.dest_reg (data32_mask_be old t.val_c (mov_be code)))
    ]

unfoldable pub wb_pop : Cpu → Option Cpu
wb_pop cpu =
    let t = cpu.temp_data_reg in
    elim (store_gen_reg cpu t.dest_reg2 t.val_b) [
      | none ↦ none
      | some cpu' ↦ store_gen_reg cpu' t.dest_reg t.val_c
    ]

unfoldable pub is_val_b_write : ℕ → Bool
is_val_b_write icode =
    icode == icode_rere
    || icode == icode_ecall
    || icode == icode_ocall
    || icode == icode_push
    || icode == icode_pushf
    || icode == icode_zwc
    || icode == icode_ret
    || icode == icode_rearg

unfoldable pub is_special_write : ℕ → Bool
is_special_write icode =
    icode == icode_lebr
    || icode == icode_lepv
    || icode == icode_libr
    || icode == icode_lipv
    || icode == icode_lpgr
    || icode == icode_lbcr

unfoldable pub writeback : Cpu → Option Cpu
writeback cpu =
    let t = cpu.temp_data_reg in
    if t.noexception == 0
    then some cpu
    else if t.icode == icode_mov
    then if is_set (is_rtype t.irtype) && is_set (exflag_mov_mem1 t.ex_flag)
      then some cpu
      else merge_dest_reg cpu (t.ex_flag >> 3)
    else if t.icode == icode_mlmr || t.icode == icode_alu
    then merge_dest_reg cpu 0
    else if is_special_write t.icode
    then some (write_reg_val cpu t.dest_reg t.val_b)
    else if is_val_b_write t.icode
    then store_gen_reg cpu t.dest_reg t.val_b
    else if t.icode == icode_popf || t.icode == icode_pop
    then wb_pop cpu
    else some cpu
