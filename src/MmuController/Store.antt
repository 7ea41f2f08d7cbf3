-- ===== src/MmuController/Store.antt =====
-- src/controllers/mmu_controller.c: `mmu_memory_wr_f`, and the MMU as the CPU calls it. What C leaves
-- undefined is `none`, as in Access; a device that is not there is a NULL pointer.
use wolf_cpuemulator.Common.{
  ℕ, ◌+◌, ◌-◌, ◌*◌, ◌==◌, ◌&&◌, ltb, leb, is_set, if◌then◌else◌, Option, none, some, List, get_or,
  set, replicate, ◌>>◌, ◌&&&◌,
}
use wolf_cpuemulator.Common.Partial.{◌>>=◌}
use wolf_cpuemulator.Endian.{
  bytes4_at, set_bytes4, copy_byte_4_array_with_be, get_int_from_2_bytes_l, sep_int_for_2_bytes_l,
  get_int_from_4_bytes_l,
}
use wolf_cpuemulator.Ram.{Ram, init_ram_unit}
use wolf_cpuemulator.MemController.{RamWrStatus, rd_memory, wr_mem}
use wolf_cpuemulator.Cache.{ld_cache_l1, ld_cache_l2, init_group}
use wolf_cpuemulator.Bus.{
  World, BusController, BusDevice, bus_status_error, bus_status_timeout, bus_rw_write,
  max_bus_device, init_bus,
}
use wolf_cpuemulator.Device.{base_mmio_addr}
use wolf_cpuemulator.Cpu.State.{SpecialRegisters}
use wolf_cpuemulator.Cpu.Fetch.{MmuStatus}
use wolf_cpuemulator.Cpu.Port.{Mmu, MmuData, Bus, BusSendData}
use wolf_cpuemulator.MmuController.{paddr_get, ram_err_ok, ram_err_dmem_error}
use wolf_cpuemulator.MmuController.Access.{
  Machine, base_mmu_addr, base_bios_addr, mmu_controller_regs, ram_err_align, ram_err_bus_error,
  ram_err_reg_timeout, refused, be_align, mmu_memory_rd_f,
}

abbrev now_busdevice_rega : ℕ
now_busdevice_rega = 0

abbrev now_busdevice_cmd : ℕ
now_busdevice_cmd = 2

abbrev now_busdevice_val_rega : ℕ
now_busdevice_val_rega = 4

abbrev now_busdevice_need_space_rega : ℕ
now_busdevice_need_space_rega = 8

abbrev now_busdevice_vendor_id_rega : ℕ
now_busdevice_vendor_id_rega = 0xa

abbrev cmd_set_base_addr : ℕ
cmd_set_base_addr = 2

abbrev cmd_set_irqnum : ℕ
cmd_set_irqnum = 3

abbrev pub done : MmuStatus
done = refused ram_err_ok

-- `relaAddr`, which is computed from the virtual address and divided by 4
abbrev pub l1_part : ℕ → ℕ
l1_part addr = ((addr &&& 127) - (addr &&& 31)) >> 2

-- The `switch` on the command: the device that it leaves behind
unfoldable configure : ℕ → List ℕ → BusDevice → Option BusDevice
configure cmd regs d = do
  val ← bytes4_at regs now_busdevice_val_rega
  let addr = get_int_from_4_bytes_l val
  some (
      if cmd == cmd_set_base_addr
      then (if leb base_mmio_addr addr && ltb addr base_mmu_addr
          then record d { base_address = addr }
          else d)
      else if cmd == cmd_set_irqnum
      then record d { irq_number = val.b0 }
      else d)

unfoldable pub set_device : BusController → ℕ → BusDevice → BusController
set_device bus n d = record bus { devices = λ i. if i == n then some d else bus.devices i }

-- The two device registers that are set from the device, and the command that is cleared
unfoldable describe : List ℕ → BusDevice → List ℕ
describe regs d =
    let (v0, v1) = sep_int_for_2_bytes_l d.vendor_id in
    let regs1 = set regs now_busdevice_vendor_id_rega v0 in
    let regs2 = set regs1 (now_busdevice_vendor_id_rega + 1) v1 in
    set regs2 now_busdevice_need_space_rega d.need_space

-- The registers of the MMU: what follows once the written bytes are in `regs`.
unfoldable pub run_mmu_regs : List ℕ → BusController → Option (List ℕ × BusController)
unfolding describe configure set_device
run_mmu_regs regs bus =
    let cmd = get_or regs now_busdevice_cmd 0 in
    let device_num =
      get_int_from_2_bytes_l (get_or regs now_busdevice_rega 0)
        (get_or regs (now_busdevice_rega + 1) 0) in
    if ltb max_bus_device device_num
    then some (regs, bus)
    else (if device_num == max_bus_device then none else bus.devices device_num) >>= λ d.
        let regs' = describe regs d in
        configure cmd regs' d >>= λ d'.
        some (set regs' now_busdevice_cmd 0, set_device bus device_num d')

module _ {D : Type 0} where
  unfoldable pub write_mmu_regs : ℕ → MmuData → Machine D → Option (MmuStatus × Machine D)
  unfolding run_mmu_regs
  write_mmu_regs paddr data' m =
      let pos_addr = (paddr - base_mmu_addr) >> 2 in
      if leb (mmu_controller_regs * 4) pos_addr then some (refused ram_err_bus_error, m) else do
        old ← bytes4_at m.regs pos_addr
        r ←
            run_mmu_regs
              (set_bytes4 m.regs pos_addr (copy_byte_4_array_with_be (data'.bytes) (data'.be)))
              (m.world.0)
        some (done, record m { regs = r.0; world = (r.1, m.world.1) })

  unfoldable pub write_mmio : Bus (World D) → ℕ → MmuData → Machine D → MmuStatus × Machine D
  write_mmio bus paddr data' m =
      let request : BusSendData = record {
        bytes = data'.bytes;
        be = data'.be;
        status = 0;
        read_write = bus_rw_write;
      } in
      let (status, world') = bus.send_data paddr request m.world in
      (
        if status == bus_status_error
            then refused ram_err_dmem_error
            else if status == bus_status_timeout
            then refused ram_err_reg_timeout
            else done,
        record m { world = world' },
      )

  -- What follows once the word is stored: the line is read again, and both caches are loaded from it.
  unfoldable pub reload : ℕ → ℕ → RamWrStatus → Ram → Machine D → MmuStatus × Machine D
  reload addr paddr stat ram1 m =
      let m1 : Machine D = record m { ram = ram1 } in
      let (stat2, ram2) = rd_memory ram1 paddr in
      let m2 : Machine D = record m { ram = ram2 } in
      let line = λ (i : ℕ). get_or stat2.bytes i 0 in
      let part = λ (i : ℕ). line (l1_part addr + i) in
      if is_set stat.dmem_error
      then (refused ram_err_dmem_error, m1)
      else if is_set stat2.dmem_error
      then (refused ram_err_dmem_error, m2)
      else (
        done,
        record m2 {
          cache2 = ld_cache_l2 m.cache2 paddr line;
          cache1 = ld_cache_l1 m.cache1 paddr part;
        },
      )

  -- The word is stored, the line is read again, and both caches are loaded from it.
  unfoldable pub write_memory : ℕ → ℕ → MmuData → Machine D → Option (MmuStatus × Machine D)
  write_memory addr paddr data' m =
      wr_mem m.ram paddr (data'.bytes) (data'.be) >>= λ w. some (reload addr paddr w.0 w.1 m)

  unfoldable pub write_region :
      Bus (World D) → ℕ → ℕ → MmuData → Machine D → Option (MmuStatus × Machine D)
  write_region bus addr paddr data' m =
      if ltb paddr base_mmio_addr
      then write_memory addr paddr data' m
      else if ltb paddr base_mmu_addr
      then some (write_mmio bus paddr data' m)
      else if ltb paddr base_bios_addr
      then write_mmu_regs paddr data' m
      else some (refused ram_err_bus_error, m)

  -- The status of the translation is not looked at.
  unfoldable pub mmu_memory_wr_f :
      Bus (World D) → SpecialRegisters → ℕ → MmuData → Machine D → Option (MmuStatus × Machine D)
  mmu_memory_wr_f bus spe addr data' m =
      let (paddr, ram') = paddr_get spe m.ram addr 0 in
      let m' : Machine D = record m { ram = ram' } in
      if is_set (paddr.addr &&& be_align data'.be)
      then some (refused ram_err_align, m')
      else write_region bus addr (paddr.addr) data' m'

  -- A step of a machine that may have run into what C leaves undefined, where it stays.
  unfoldable pub step :
      (Machine D → Option (MmuStatus × Machine D))
      → Option (Machine D)
      → MmuStatus × Option (Machine D)
  step f none = (done, none)
  step f (some m) = elim (f m) [ none ↦ (done, none) | some (answer, m') ↦ (answer, some m') ]

  -- `init_mmu_controller`: the MMU as the stages of the CPU call it
  unfoldable pub mmu_port : Bus (World D) → List ℕ → Mmu (Option (Machine D))
  unfolding step
  mmu_port bus file = record {
    wr_mmu = λ spe addr data'. step (mmu_memory_wr_f bus spe addr data');
    rd_mmu = λ spe addr be fetch. step (mmu_memory_rd_f bus file spe addr be fetch);
  }

  -- What `init_cpu` gives to the MMU, with the devices' own state
  unfoldable pub init_machine : D → Machine D
  unfolding init_group init_ram_unit init_bus
  init_machine devices = record {
    regs = replicate mmu_controller_regs 0;
    cache1 = init_group;
    cache2 = init_group;
    ram = init_ram_unit;
    world = (init_bus, devices);
  }
