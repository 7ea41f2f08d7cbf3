-- ===== src/Ram/Operate.antt =====
-- The accesses of one and four bytes of src/ram_eff.c in terms of single bytes.
use wolf_cpuemulator.Common.{ℕ, zero, suc, ◌+◌, ◌^◌, ◌<◌, ◌≡◌, refl, arith}
use wolf_cpuemulator.Common.{◌∙◌, ap, if◌then◌else◌, List, [], ◌∷◌, u32, ◌&&&◌}
use wolf_cpuemulator.Endian.{Bytes4, get_data_bit}
use wolf_cpuemulator.Ram.{Ram, get_data, write_data, read_bytes, write_4_bytes}
use wolf_cpuemulator.Ram.Cells.{byte_at, byte_at-get_data, byte_at-write_data, same_cell}

-- `n` bytes from an address on.
abbrev pub bytes_from : Ram → ℕ → ℕ → List ℕ
bytes_from ram addr zero = []
bytes_from ram addr (suc n) = byte_at ram addr ∷ bytes_from ram (u32 (addr + 1)) n

bytes_from-get_data :
    (ram : Ram) (a addr n : ℕ) → bytes_from (get_data ram a).1 addr n ≡ bytes_from ram addr n
bytes_from-get_data ram a addr zero = refl
bytes_from-get_data ram a addr (suc n) =
    rw (byte_at-get_data ram a addr, bytes_from-get_data ram a (u32 (addr + 1)) n)

-- The loop reads the bytes that stand there, and changes none.
pub read_bytes_lem :
    (ram : Ram) (addr n : ℕ)
    → ((read_bytes ram addr n).0 ≡ bytes_from ram addr n)
      × ((b : ℕ) → byte_at (read_bytes ram addr n).1 b ≡ byte_at ram b)
unfolding read_bytes byte_at
read_bytes_lem ram addr zero = (refl, λ b. refl)
read_bytes_lem ram addr (suc n) =
    let ram' = (get_data ram addr).1 in
    let (head, same) = read_bytes_lem ram' (u32 (addr + 1)) n in
    (
      ap (λ t. byte_at ram addr ∷ t) (head ∙ bytes_from-get_data ram addr (u32 (addr + 1)) n),
      λ b. same b ∙ byte_at-get_data ram addr b,
    )

-- A write of four bytes stores all four, whatever its byte enables, and touches no other cell.
pub byte_at-write_4_bytes :
    (ram : Ram) (a b be : ℕ) (v : Bytes4)
    → a + 3 < 2 ^ 32
    → byte_at (write_4_bytes ram a v be) b ≡ (
        if same_cell (a + 3) b
        then v.b3
        else if same_cell (a + 2) b
        then v.b2
        else if same_cell (a + 1) b
        then v.b1
        else if same_cell a b
        then v.b0
        else byte_at ram b)
unfolding write_4_bytes
byte_at-write_4_bytes ram a b be v h =
    let e1 : u32 (a + 1) ≡ a + 1 = omega arith in
    let e2 : u32 (a + 2) ≡ a + 2 = omega arith in
    let e3 : u32 (a + 3) ≡ a + 3 = omega arith in
    let ram0 = write_data ram a v.b0 (be &&& 1) in
    let ram1 = write_data ram0 (a + 1) v.b1 (get_data_bit 1 be) in
    let ram2 = write_data ram1 (a + 2) v.b2 (get_data_bit 2 be) in
    rw (e1, e2, e3)
      (rw (
        byte_at-write_data ram2 (a + 3) b v.b3 (get_data_bit 3 be),
        byte_at-write_data ram1 (a + 2) b v.b2 (get_data_bit 2 be),
        byte_at-write_data ram0 (a + 1) b v.b1 (get_data_bit 1 be),
        byte_at-write_data ram a b v.b0 (be &&& 1),
      ))

-- The four bytes read back where they were written.
pub bytes_from-write_4_bytes :
    (ram : Ram) (a be : ℕ) (v : Bytes4)
    → a + 3 < 2 ^ 32
    → bytes_from (write_4_bytes ram a v be) a 4 ≡ v.b0 ∷ v.b1 ∷ v.b2 ∷ v.b3 ∷ []
bytes_from-write_4_bytes ram a be v h =
    let e1 : u32 (a + 1) ≡ a + 1 = omega arith in
    let e2 : u32 (a + 1 + 1) ≡ a + 2 = omega arith in
    let e3 : u32 (a + 2 + 1) ≡ a + 3 = omega arith in
    rw (e1, e2, e3)
      (ground (
        arith,
        byte_at-write_4_bytes ram a a be v h,
        byte_at-write_4_bytes ram a (a + 1) be v h,
        byte_at-write_4_bytes ram a (a + 2) be v h,
        byte_at-write_4_bytes ram a (a + 3) be v h,
      ))
