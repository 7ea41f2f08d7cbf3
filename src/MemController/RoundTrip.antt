-- ===== src/MemController/RoundTrip.antt =====
-- Words written by src/controllers/mem_controller.c and read back.
use wolf_cpuemulator.Common.{ℕ, ◌+◌, ◌^◌, ◌<◌, ◌≤◌, ◌≡◌, refl, arith, some, ltb, false}
use wolf_cpuemulator.Common.{◌∙◌, ◌∷◌, ◌++◌, replicate, flag, leb, u32, if◌then◌else◌}
use wolf_cpuemulator.Endian.{Bytes4, be_data}
use wolf_cpuemulator.Logic.{through8}
use wolf_cpuemulator.Ram.{Ram, operate, operate_rd, read_bytes, write_4_bytes}
use wolf_cpuemulator.Ram.Cells.{byte_at, same_cell}
use wolf_cpuemulator.Ram.Operate.{read_bytes_lem, bytes_from-write_4_bytes}
use wolf_cpuemulator.Ram.Operate.{byte_at-write_4_bytes}
use wolf_cpuemulator.MemController.{RamWrStatus, rd_memory_4b, wr_mem, memcpy}

-- In range, a word write of at most four bytes reports no error.
pub wr_mem-in_range :
    (ram : Ram) (a be : ℕ) (v : Bytes4)
    → a + 4 < 2 ^ 31
    → be_data be ≤ 4
    → (written : RamWrStatus) × (wr_mem ram a v be ≡ some (written, write_4_bytes ram a v 0))
      × (written.dmem_error ≡ 0)
unfolding wr_mem operate
wr_mem-in_range ram a be v h small =
    let e : flag (leb (2 ^ 31) (u32 (a + 4))) ≡ 0 = ground arith in
    let fits : ltb 4 (be_data be) ≡ false = ground arith in
    (
      record { dmem_error = 0; offset4 = memcpy (be_data be) (replicate 128 0) (replicate 4 0) },
      rw (e, fits) refl,
      refl,
    )

pub rd_memory_4b-in_range :
    (ram : Ram) (a : ℕ)
    → a + 4 < 2 ^ 31
    → ((rd_memory_4b ram a 15).0.dmem_error ≡ 0)
      × ((rd_memory_4b ram a 15).0.bytes
          ≡ memcpy 4 ((read_bytes ram a 4).0 ++ replicate 124 0) (replicate 128 0))
      × ((rd_memory_4b ram a 15).1 ≡ (read_bytes ram a 4).1)
unfolding rd_memory_4b operate operate_rd be_data through8
rd_memory_4b-in_range ram a h =
    let e : flag (leb (2 ^ 31) (u32 (a + 4))) ≡ 0 = ground arith in (rw e, rw e, refl)

-- A word written below the top of memory, with byte enables for which BE_DATA is at most 4, is read
-- back whole: the write is defined, neither access reports an error, and the four bytes read are the
-- four bytes written.
pub rd_memory_4b-wr_mem :
    (ram : Ram) (a be : ℕ) (v : Bytes4)
    → a + 4 < 2 ^ 31
    → be_data be ≤ 4
    → (written : RamWrStatus) × (ram' : Ram) × (wr_mem ram a v be ≡ some (written, ram'))
      × (written.dmem_error ≡ 0)
      × ((rd_memory_4b ram' a 15).0.dmem_error ≡ 0)
      × ((rd_memory_4b ram' a 15).0.bytes ≡ v.b0 ∷ v.b1 ∷ v.b2 ∷ v.b3 ∷ replicate 124 0)
rd_memory_4b-wr_mem ram a be v h small =
    let (written, stored, no_error) = wr_mem-in_range ram a be v h small in
    let ram' = write_4_bytes ram a v 0 in
    let (read_ok, read, same) = rd_memory_4b-in_range ram' a h in
    let bytes = (read_bytes_lem ram' a 4).0 ∙ bytes_from-write_4_bytes ram a 0 v (omega arith) in
    (written, ram', stored, no_error, read_ok, read ∙ rw bytes)

-- Below the top of memory, a word write with byte enables for which BE_DATA is at most 4 is defined,
-- and touches no byte but the four cells that it names, and all of those, whatever these byte enables
-- are: also a write of one byte replaces four.
pub byte_at-wr_mem :
    (ram : Ram) (a be : ℕ) (v : Bytes4)
    → a + 4 < 2 ^ 31
    → be_data be ≤ 4
    → (written : RamWrStatus) × (ram' : Ram) × (wr_mem ram a v be ≡ some (written, ram'))
      × ((b : ℕ)
          → byte_at ram' b ≡ (
              if same_cell (a + 3) b
              then v.b3
              else if same_cell (a + 2) b
              then v.b2
              else if same_cell (a + 1) b
              then v.b1
              else if same_cell a b
              then v.b0
              else byte_at ram b))
byte_at-wr_mem ram a be v h small =
    let (written, stored, no_error) = wr_mem-in_range ram a be v h small in
    (written, write_4_bytes ram a v 0, stored, λ b. byte_at-write_4_bytes ram a b 0 v (omega arith))
