-- ===== src/Device/Registers.antt =====
-- The register accesses of src/mmio_devices/device_tools.c: what a read gives after a write.
use wolf_cpuemulator.Common.{
  ℕ, ◌+◌, ◌^◌, ◌<◌, ◌≡◌, ◌∙◌, arith, List, length, get_elem?, set, some, u8, sub32, ◌==◌,
  if◌then◌else◌, get_elem?-set, get_elem?-some, length-set,
}
use wolf_cpuemulator.Endian.{
  bytes4_at, set_bytes4, Bytes4, copy_byte_4_array_with_be, copy_byte_4_array_selected_with_be,
}
use wolf_cpuemulator.Bus.{BusController, set_status, bus_status_success}
use wolf_cpuemulator.Device.{read_reg_general, write_reg_general, stat_success}

-- Both functions find the same register, though each cuts another of its arguments to 8 bits.
same_register :
    (addr base : ℕ)
    → addr < 2 ^ 32
    → base < 2 ^ 32
    → u8 (sub32 (u8 addr) (u8 base)) ≡ u8 (sub32 addr base)
same_register addr base h k = omega arith

pub read_register :
    (addr base : ℕ)
    → addr < 2 ^ 32
    → base < 2 ^ 32
    → u8 (sub32 (u8 addr) base) ≡ u8 (sub32 addr base)
read_register addr base h k = omega arith

pub bytes4_at-some :
    (regs : List ℕ) (i : ℕ) → i + 3 < length regs → (v : Bytes4) × (bytes4_at regs i ≡ some v)
unfolding bytes4_at
bytes4_at-some regs i h =
    let (b0, e0) = get_elem?-some regs i (omega arith) in
    let (b1, e1) = get_elem?-some regs (i + 1) (omega arith) in
    let (b2, e2) = get_elem?-some regs (i + 2) (omega arith) in
    let (b3, e3) = get_elem?-some regs (i + 3) (omega arith) in
    (record { b0 = b0; b1 = b1; b2 = b2; b3 = b3 }, rw (e0, e1, e2, e3))

module _ (regs : List ℕ) (i : ℕ) (v : Bytes4) (h : i + 3 < length regs) where
  abbrev regs0 : List ℕ
  regs0 = set regs i v.b0

  abbrev regs1 : List ℕ
  regs1 = set regs0 (i + 1) v.b1

  abbrev regs2 : List ℕ
  regs2 = set regs1 (i + 2) v.b2

  length1 : length regs0 ≡ length regs
  length1 = length-set regs i v.b0

  length2 : length regs1 ≡ length regs
  length2 = length-set regs0 (i + 1) v.b1 ∙ length1

  length3 : length regs2 ≡ length regs
  length3 = length-set regs1 (i + 2) v.b2 ∙ length2

  length-set_bytes4 : length (set_bytes4 regs i v) ≡ length regs
  unfolding set_bytes4
  length-set_bytes4 = length-set regs2 (i + 3) v.b3 ∙ length3

  -- Every register after the write
  get_elem?-set_bytes4 :
      (j : ℕ)
      → get_elem? (set_bytes4 regs i v) j ≡ (
          if i + 3 == j
          then some v.b3
          else if i + 2 == j
          then some v.b2
          else if i + 1 == j
          then some v.b1
          else if i == j
          then some v.b0
          else get_elem? regs j)
  unfolding set_bytes4
  get_elem?-set_bytes4 j = rw (
    get_elem?-set regs2 (i + 3) j v.b3 (omega (arith, length3)),
    get_elem?-set regs1 (i + 2) j v.b2 (omega (arith, length2)),
    get_elem?-set regs0 (i + 1) j v.b1 (omega (arith, length1)),
    get_elem?-set regs i j v.b0 (omega arith),
  )

  bytes4_at-set_bytes4 : bytes4_at (set_bytes4 regs i v) i ≡ some v
  unfolding bytes4_at
  bytes4_at-set_bytes4 =
      rw
        (
          get_elem?-set_bytes4 i,
          get_elem?-set_bytes4 (i + 1),
          get_elem?-set_bytes4 (i + 2),
          get_elem?-set_bytes4 (i + 3),
        )
        (ground arith)

-- A read of the device's registers after a write to the same address, by any two requests: the write
-- puts the bytes that its byte enables select over the four registers from the address on, and the
-- read gives those four, with zero where its own enables do not select. Both report success.
pub read_reg_general-write_reg_general :
    (writer reader : BusController) (addr base : ℕ) (regs : List ℕ)
    → addr < 2 ^ 32
    → base < 2 ^ 32
    → u8 (sub32 addr base) + 3 < length regs
    → (old : Bytes4) × (regs' : List ℕ) × (bytes4_at regs (u8 (sub32 addr base)) ≡ some old)
      × (write_reg_general writer (u8 addr) base regs
          ≡ some (stat_success, set_status writer bus_status_success, regs'))
      × (read_reg_general reader (u8 addr) base regs'
          ≡ some (
            stat_success,
            record reader {
              data_cmd_collection = record (reader.data_cmd_collection) {
                bytes =
                    copy_byte_4_array_with_be
                      (copy_byte_4_array_selected_with_be old
                        (writer.data_cmd_collection.bytes)
                        (writer.data_cmd_collection.be))
                      (reader.data_cmd_collection.be);
                status = bus_status_success;
              };
            },
          ))
unfolding write_reg_general read_reg_general set_status
read_reg_general-write_reg_general writer reader addr base regs ha hb h =
    let i = u8 (sub32 addr base) in
    let (old, e) = bytes4_at-some regs i h in
    let request = writer.data_cmd_collection in
    let new = copy_byte_4_array_selected_with_be old request.bytes request.be in
    (
      old,
      set_bytes4 regs i new,
      e,
      rw (same_register addr base ha hb, e),
      rw (read_register addr base ha hb, bytes4_at-set_bytes4 regs i new h),
    )
