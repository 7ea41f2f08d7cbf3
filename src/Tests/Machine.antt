-- ===== src/Tests/Machine.antt =====
-- The theorems on the MMU and the whole machine at concrete inputs.
use wolf_cpuemulator.Common.{
  ℕ, ◌≤◌, ◌≡◌, ◌≢◌, none, refl, arith, true, is_set, if◌then◌else◌, some, [], ◌∷◌, ◌==◌,
}
use wolf_cpuemulator.Endian.{Bytes4, get_int_from_2_bytes_l, get_int_from_4_bytes_l, be_data}
use wolf_cpuemulator.Logic.{through8}
use wolf_cpuemulator.Ram.{init_ram_unit}
use wolf_cpuemulator.MemController.{rd_memory_4b}
use wolf_cpuemulator.Ram.Cells.{byte_at, same_cell}
use wolf_cpuemulator.Cache.{init_group}
use wolf_cpuemulator.Bus.{World, BusController, BusDevice, bus_port, in_time}
use wolf_cpuemulator.Cpu.State.{SpecialRegisters}
use wolf_cpuemulator.Cpu.Port.{Bus}
use wolf_cpuemulator.Cpu.Isa.{icode_push, icode_pop}
use wolf_cpuemulator.Cpu.Execute.{execute}
use wolf_cpuemulator.Cpu.Memory.{memory}
use wolf_cpuemulator.Cpu.Stack.{exec_pop-exec_push}
use wolf_cpuemulator.Tests.Data.{in_flight, cpu_with}
use wolf_cpuemulator.Cpu.State.{Cpu}
use wolf_cpuemulator.Common.{Option}
use wolf_cpuemulator.MmuController.{paddr_get}
use wolf_cpuemulator.MmuController.Access.{Machine, mmu_memory_rd_f, answered}
use wolf_cpuemulator.MmuController.Store.{
  run_mmu_regs, mmu_port, mmu_memory_wr_f, init_machine, done,
}
use wolf_cpuemulator.MmuController.Reread.{
  reread, mmu_memory_rd_f-mmu_memory_wr_f, mmu_memory_rd_f-mmu_memory_wr_f_near,
}
use wolf_cpuemulator.MmuController.Fault.{mmu_memory_wr_f-refused}
use wolf_cpuemulator.MmuController.Enumerate.{run_mmu_regs_lem}
use wolf_cpuemulator.MmuController.Bounds.{mmu_memory_rd_f-ne-none}
use wolf_cpuemulator.MmuController.Kept.{IsSound, Leaves, mmu_memory_rd_f-Leaves}

-- A bus with no devices
abbrev quiet : Bus (World (Option ℕ))
quiet = bus_port (in_time (λ _. [])) (λ _. [])

abbrev reset : Machine (Option ℕ)
reset = init_machine (some 0)

abbrev kernel : SpecialRegisters
kernel = record { bcr = 0; scr = 0; flags = 0; pg_mode_base_addr_reg = 0 }

abbrev paging : SpecialRegisters
paging = record kernel { bcr = 4 }

abbrev word : Bytes4
word = record { b0 = 1; b1 = 2; b2 = 3; b3 = 4 }

mmu_memory_rd_f-mmu_memory_wr_f_example :
    (m' m'' : Machine (Option ℕ)) × (mmu_memory_wr_f quiet kernel 32
        (record { bytes = word; be = 15 })
        reset
      ≡ some (done, m'))
    × (mmu_memory_rd_f quiet [] kernel 32 15 0 m'
        ≡ some (
          answered (record {
            b0 = reread reset 32 word 0;
            b1 = reread reset 32 word 1;
            b2 = reread reset 32 word 2;
            b3 = reread reset 32 word 3;
          }),
          m'',
        ))
unfolding init_machine init_group
mmu_memory_rd_f-mmu_memory_wr_f_example =
    mmu_memory_rd_f-mmu_memory_wr_f reset 32 word quiet [] kernel 0 refl refl (omega arith) refl

mmu_memory_rd_f-mmu_memory_wr_f_near_example :
    (m' m'' : Machine (Option ℕ)) × (mmu_memory_wr_f quiet kernel 132
        (record { bytes = word; be = 15 })
        reset
      ≡ some (done, m'))
    × (mmu_memory_rd_f quiet [] kernel 132 15 0 m'
        ≡ some (answered (record { b0 = 1; b1 = 2; b2 = 3; b3 = 4 }), m''))
unfolding init_machine init_group
mmu_memory_rd_f-mmu_memory_wr_f_near_example =
    mmu_memory_rd_f-mmu_memory_wr_f_near reset 132 word quiet [] kernel 0 refl refl (omega arith)
      (omega arith) refl

-- Memory is empty, so no page is there.
page_fault : is_set (paddr_get paging reset.ram 0x5000 0).0.stat ≡ true
unfolding paddr_get init_machine init_ram_unit rd_memory_4b get_int_from_4_bytes_l through8 be_data
page_fault = refl

four_bytes : be_data 15 ≤ 4
unfolding be_data through8
four_bytes = omega arith

mmu_memory_wr_f-refused_example :
    (m' : Machine (Option ℕ)) × (mmu_memory_wr_f quiet paging 0x5000
        (record { bytes = word; be = 15 })
        reset
      ≡ some (done, m'))
    × ((b : ℕ)
        → byte_at m'.ram b ≡ (
            if same_cell 3 b
            then 4
            else if same_cell 2 b
            then 3
            else if same_cell 1 b
            then 2
            else if same_cell 0 b
            then 1
            else byte_at reset.ram b))
mmu_memory_wr_f-refused_example =
    mmu_memory_wr_f-refused quiet paging 0x5000 (record { bytes = word; be = 15 }) reset page_fault
      four_bytes

reset-IsSound : IsSound reset
unfolding init_machine init_group
reset-IsSound = record {
  marks1 = λ i. record { first_marked = refl; second_marked = refl };
  marks2 = λ i. record { first_marked = refl; second_marked = refl };
}

mmu_memory_rd_f-Leaves_example : Leaves reset (mmu_memory_rd_f quiet [] kernel 64 15 1 reset)
mmu_memory_rd_f-Leaves_example = mmu_memory_rd_f-Leaves quiet [] kernel 64 15 1 reset reset-IsSound

mmu_memory_rd_f-ne-none_example : mmu_memory_rd_f quiet [] kernel 0x20030 15 0 reset ≢ none
unfolding init_machine paddr_get
mmu_memory_rd_f-ne-none_example = mmu_memory_rd_f-ne-none quiet [] kernel 0x20030 0 reset refl (λ e.
    record { in_memory = λ h. omega arith; in_regs = λ h. omega arith; in_bios = λ h. omega arith })

-- PUSH of 0x01020304 with the stack pointer at 136, and the POP after it
abbrev push_cpu : Cpu
push_cpu = cpu_with (record (in_flight icode_push 0 0 0 0x01020304 0) { val_b = 136 }) 0

abbrev pop_cpu : Cpu
pop_cpu = cpu_with (record (in_flight icode_pop 0 0 0 0 0) { val_b = 132 }) 0

exec_pop-exec_push_example :
    let (c', s) = memory (mmu_port quiet []) (execute push_cpu) (some reset) in
    let (d', s') = memory (mmu_port quiet []) (execute pop_cpu) s in
    (c'.temp_data_reg.noexception ≡ 1)
    × (c'.temp_data_reg.val_b ≡ 132)
    × (d'.temp_data_reg.noexception ≡ 1)
    × (d'.temp_data_reg.val_b ≡ 136)
    × (d'.temp_data_reg.val_c ≡ 0x01020304)
unfolding init_machine init_group
exec_pop-exec_push_example =
    exec_pop-exec_push quiet [] reset push_cpu pop_cpu
      (record { running = refl; code = refl; plain = refl })
      (record { running = refl; code = refl; plain = refl }) (omega arith) (omega arith) refl refl
      refl refl (omega arith) (omega arith) refl

-- One device on the bus, number 0, and the registers that move its base to 0xffff0100
abbrev clock : BusDevice
clock = record {
  base_address = 0xffff0000;
  vendor_id = 0x1005;
  need_space = 4;
  device_base_status = 0;
  irq_number = 5;
}

abbrev one_device : BusController
one_device = record (reset.world.0) { devices = λ i. if i == 0 then some clock else none }

run_mmu_regs_lem_example :
    (d' : BusDevice) × (run_mmu_regs
        (0 ∷ 0 ∷ 2 ∷ 0 ∷ 0 ∷ 1 ∷ 255 ∷ 255 ∷ 0 ∷ 0 ∷ 0 ∷ 0 ∷ [])
        one_device
      ≡ some (
        0 ∷ 0 ∷ 0 ∷ 0 ∷ 0 ∷ 1 ∷ 255 ∷ 255 ∷ 4 ∷ 0 ∷ 5 ∷ 16 ∷ [],
        record one_device { devices = λ i. if i == 0 then some d' else one_device.devices i },
      ))
    × (d'.base_address ≡ 0xffff0100)
    × (d'.irq_number ≡ 5)
    × (d'.vendor_id ≡ 0x1005)
    × (d'.need_space ≡ 4)
    × (d'.device_base_status ≡ 0)
unfolding get_int_from_2_bytes_l get_int_from_4_bytes_l
run_mmu_regs_lem_example =
    run_mmu_regs_lem 0 0 2 0 0 1 255 255 0 0 0 0 one_device 0 clock refl (omega arith) refl
