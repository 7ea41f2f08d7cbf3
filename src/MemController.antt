-- ===== src/MemController.antt =====
-- src/controllers/mem_controller.c: the accesses of main memory that the MMU and the caches use.
pub mod RoundTrip
pub mod Line
use wolf_cpuemulator.Common.{
  ℕ, zero, suc, ◌==◌, List, [], Option, none, some, ltb, ◌∷◌, replicate, is_set, if◌then◌else◌,
  ◌&&&◌,
}
use wolf_cpuemulator.Endian.{Bytes4, zero_bytes, be_data}
use wolf_cpuemulator.Ram.{Ram, RamInArgs, operate, l2_size, ram_in_opcode_rd, ram_in_opcode_wr}
use wolf_cpuemulator.Ram.{ram_in_opbytes_128byte, ram_in_opbytes_4byte}

-- RAM_RD_STATUS; `bytes` is the union's array of 128 bytes, of which `offset4` is the head.
pub record RamRdStatus : Type 0 where
  pub dmem_error : ℕ
  pub bytes : List ℕ

-- RAM_WR_STATUS
pub record RamWrStatus : Type 0 where
  pub dmem_error : ℕ
  pub offset4 : List ℕ

-- `memcpy` of the first `n` elements
abbrev pub memcpy : ℕ → List ℕ → List ℕ → List ℕ
memcpy zero src dst = dst
memcpy (suc n) [] dst = dst
memcpy (suc n) (x ∷ src) [] = []
memcpy (suc n) (x ∷ src) (y ∷ dst) = x ∷ memcpy n src dst

abbrev pub blank_args : RamInArgs
blank_args = record { opcode = 0; opbytes = 0; paddr = 0; val4b_in = zero_bytes; be = 0 }

unfoldable pub rd_memory : Ram → ℕ → RamRdStatus × Ram
unfolding operate
rd_memory ram paddr =
    let input : RamInArgs = record blank_args {
      opcode = ram_in_opcode_rd;
      opbytes = ram_in_opbytes_128byte;
      paddr = paddr;
    } in
    let (result, ram') = operate ram input in
    let error = result.status_flag &&& 1 in
    let zeros = replicate l2_size 0 in
    let bytes = if is_set error then zeros else memcpy 128 result.bytes zeros in
    (record { dmem_error = error; bytes = bytes }, ram')

unfoldable pub rd_memory_4b : Ram → ℕ → ℕ → RamRdStatus × Ram
unfolding operate
rd_memory_4b ram paddr be =
    let input : RamInArgs = record blank_args {
      opcode = ram_in_opcode_rd;
      opbytes = ram_in_opbytes_4byte;
      paddr = paddr;
    } in
    let (result, ram') = operate ram input in
    let error = result.status_flag &&& 1 in
    let zeros = replicate l2_size 0 in
    let bytes = if is_set error then zeros else memcpy (be_data be) result.bytes zeros in
    (record { dmem_error = error; bytes = bytes }, ram')

-- The byte enables are not handed on to the memory. A copy of more than four bytes leaves `offset4`,
-- which C leaves undefined: the result is then `none`.
unfoldable pub wr_mem : Ram → ℕ → Bytes4 → ℕ → Option (RamWrStatus × Ram)
unfolding operate
wr_mem ram paddr value be =
    let input : RamInArgs = record blank_args {
      opcode = ram_in_opcode_wr;
      opbytes = ram_in_opbytes_4byte;
      paddr = paddr;
      val4b_in = value;
    } in
    let (result, ram') = operate ram input in
    let error = result.status_flag &&& 1 in
    let zeros = replicate 4 0 in
    let copied = memcpy (be_data be) result.bytes zeros in
    let done : RamWrStatus = record { dmem_error = error; offset4 = copied } in
    if is_set error
    then some (record done { offset4 = zeros }, ram')
    else if ltb 4 (be_data be)
    then none
    else some (done, ram')
