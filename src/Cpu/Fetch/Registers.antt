-- ===== src/Cpu/Fetch/Registers.antt =====
-- The register numbers that src/cpu_fetch.c cuts out of an instruction, as a table by instruction.
use wolf_cpuemulator.Common.{ℕ, ◌+◌, ◌*◌, ◌/◌, ◌%◌, ◌^◌, ◌<◌, ◌≡◌, refl, arith, true}
use wolf_cpuemulator.Common.{◌==◌, ==_iff, ◌||◌, if◌then◌else◌, ◌&&&◌, ◌|||◌, ◌>>◌, ◌<<◌, ◌∙◌}
use wolf_cpuemulator.Common.{all_below, all_below₃_sound}
use wolf_cpuemulator.Common.Bits.{bit_and_mask, bit_or_fields}
use wolf_cpuemulator.Logic.{through8}
use wolf_cpuemulator.Cpu.Fetch.{get_l_register_a, get_l_register_b}
use wolf_cpuemulator.Cpu.Isa.{icode_mov, icode_alu, icode_mlmr, icode_push, icode_pop}
use wolf_cpuemulator.Cpu.Isa.{icode_pushf, icode_popf, icode_zwc, icode_jmp, icode_ocall}
use wolf_cpuemulator.Cpu.Isa.{icode_ecall, icode_ret, icode_rere, icode_rbcr, icode_lbcr}
use wolf_cpuemulator.Cpu.Isa.{icode_lpgr, icode_libr, icode_lebr, icode_rearg, cpu_reg_pc}
use wolf_cpuemulator.Cpu.Isa.{cpu_reg_rsp, cpu_reg_spe_bcr, cpu_reg_spe_scr, cpu_reg_spe_pgbase}
use wolf_cpuemulator.Cpu.Isa.{cpu_reg_ecall_ecbase, cpu_reg_ecall_icbase, cpu_reg_ecall_reason}
use wolf_cpuemulator.Cpu.Isa.{cpu_reg_ecall_earg}

-- Bits 21 to 24 and 17 to 20 of a word.
abbrev pub field_a : ℕ → ℕ
field_a word = word / 2 ^ 21 % 2 ^ 4

abbrev pub field_b : ℕ → ℕ
field_b word = word / 2 ^ 17 % 2 ^ 4

-- Register A. `k` is what stands above bit 2 of the flags; a call masks the field by its negation.
unfoldable pub register_a : ℕ → ℕ → ℕ → ℕ
register_a icode a k =
    if icode == icode_mov
      || icode == icode_alu
      || icode == icode_mlmr
      || icode == icode_rbcr
      || icode == icode_rere
      || icode == icode_zwc
      || icode == icode_push
      || icode == icode_pop
    then a
    else if icode == icode_ret
    then cpu_reg_rsp
    else if icode == icode_ocall
    then if k == 0 then cpu_reg_pc else if k == 1 then a else if k == 2 then a &&& 14 else a &&& 13
    else if icode == icode_jmp
    then cpu_reg_pc
    else if icode == icode_lbcr
    then cpu_reg_spe_bcr
    else if icode == icode_lpgr
    then cpu_reg_spe_pgbase
    else if icode == icode_lebr
    then cpu_reg_ecall_ecbase
    else if icode == icode_libr
    then cpu_reg_ecall_icbase
    else if icode == icode_pushf || icode == icode_popf
    then cpu_reg_spe_scr
    else if icode == icode_rearg
    then cpu_reg_ecall_earg
    else 0

-- Register B of an R instruction, and of an I instruction.
unfoldable pub register_b : ℕ → ℕ → ℕ → ℕ → ℕ
register_b type icode a b =
    if type == 1
    then if icode == icode_lbcr
        || icode == icode_lpgr
        || icode == icode_lebr
        || icode == icode_libr
        || icode == icode_rearg
      then a
      else if icode == icode_ret || icode == icode_push || icode == icode_pop
      then cpu_reg_rsp
      else if icode == icode_rere
      then cpu_reg_ecall_reason
      else if icode == icode_ecall
      then cpu_reg_pc
      else if icode == icode_mov || icode == icode_alu
      then b
      else 0
    else if icode == icode_ecall
    then cpu_reg_ecall_ecbase
    else if icode == icode_ocall
    then cpu_reg_rsp
    else 0

register_a_table :
    all_below 64 (λ icode.
      all_below 16 (λ a.
        all_below 4 (λ k. get_l_register_a icode (a << 21) (k << 3) 0 == register_a icode a k)))
    ≡ true
unfolding all_below get_l_register_a register_a through8
register_a_table = refl

register_b_table :
    all_below 128 (λ ti. all_below 16 (λ a. all_below 16 (λ b.
      get_l_register_b (ti / 64) (ti % 64) (a << 21 ||| b << 17)
      == register_b (ti / 64) (ti % 64) a b)))
    ≡ true
unfolding all_below get_l_register_b register_b through8
register_b_table = refl

-- The getters read no other bits.
register_a_reads :
    (icode w w' f f' c c' : ℕ)
    → (w >> 21 &&& 0xf) ≡ (w' >> 21 &&& 0xf)
    → (f >> 3) ≡ (f' >> 3)
    → (c >> 4) ≡ (c' >> 4)
    → get_l_register_a icode w f c ≡ get_l_register_a icode w' f' c'
unfolding get_l_register_a
register_a_reads icode w w' f f' c c' e1 e2 e3 = rw (e1, e2, e3)

register_b_reads :
    (type icode w w' : ℕ)
    → (w >> 21 &&& 0xf) ≡ (w' >> 21 &&& 0xf)
    → (w >> 17 &&& 0xf) ≡ (w' >> 17 &&& 0xf)
    → get_l_register_b type icode w ≡ get_l_register_b type icode w'
unfolding get_l_register_b
register_b_reads type icode w w' e1 e2 = rw (e1, e2)

same_field_a : (w : ℕ) → (w >> 21 &&& 0xf) ≡ ((field_a w << 21) >> 21 &&& 0xf)
same_field_a w = omega (arith, bit_and_mask 4 (w >> 21), bit_and_mask 4 ((field_a w << 21) >> 21))

joined : (a b : ℕ) → b < 16 → (a << 21 ||| b << 17) ≡ a * 2 ^ 21 + b * 2 ^ 17
joined a b h = bit_or_fields 21 a (b << 17) (omega arith)

same_fields :
    (w : ℕ)
    → ((w >> 21 &&& 0xf) ≡ ((field_a w << 21 ||| field_b w << 17) >> 21 &&& 0xf))
      × ((w >> 17 &&& 0xf) ≡ ((field_a w << 21 ||| field_b w << 17) >> 17 &&& 0xf))
same_fields w =
    let e = joined (field_a w) (field_b w) (omega arith) in
    let s = field_a w * 2 ^ 21 + field_b w * 2 ^ 17 in
    rw e (
      omega (arith, bit_and_mask 4 (w >> 21), bit_and_mask 4 (s >> 21)),
      omega (arith, bit_and_mask 4 (w >> 17), bit_and_mask 4 (s >> 17)),
    )

-- For every 6-bit instruction code, 5-bit ExFlag and 4-bit condition, and every word, `getLRegisterA` gives the register of the table: the
-- field of the word, or the register that the instruction implies. The condition is a value of its
-- 4-bit field, so its bit for an explicit register is never seen, and a jump always starts from PC.
pub get_l_register_a_lem :
    (icode w f c : ℕ)
    → icode < 64
    → f < 32
    → c < 16
    → get_l_register_a icode w f c ≡ register_a icode (field_a w) (f / 8)
get_l_register_a_lem icode w f c hi hf hc =
    register_a_reads icode w (field_a w << 21) f ((f / 8) << 3) c 0 (same_field_a w) (omega arith)
      (omega arith)
    ∙ (==_iff _ _).0 (
        all_below₃_sound 64 16 4
          (λ i a k. get_l_register_a i (a << 21) (k << 3) 0 == register_a i a k) icode (field_a w)
          (f / 8) register_a_table hi (omega arith) (omega arith))

-- For every type bit, instruction code and word, `getLRegisterB` gives the register of the table.
pub get_l_register_b_lem :
    (type icode w : ℕ)
    → type < 2
    → icode < 64
    → get_l_register_b type icode w ≡ register_b type icode (field_a w) (field_b w)
get_l_register_b_lem type icode w ht hi =
    register_b_reads type icode w (field_a w << 21 ||| field_b w << 17) (same_fields w).0
      (same_fields w).1
    ∙ (==_iff _ _).0 found
  where
    type_back : (type * 64 + icode) / 64 ≡ type
    type_back = omega arith

    icode_back : (type * 64 + icode) % 64 ≡ icode
    icode_back = omega arith

    found :
        (get_l_register_b type icode (field_a w << 21 ||| field_b w << 17)
          == register_b type icode (field_a w) (field_b w))
        ≡ true
    found =
        rw (type_back, icode_back) at
          (all_below₃_sound 128 16 16
            (λ ti a b.
              get_l_register_b (ti / 64) (ti % 64) (a << 21 ||| b << 17)
              == register_b (ti / 64) (ti % 64) a b)
            (type * 64 + icode) (field_a w) (field_b w) register_b_table (omega arith) (omega arith)
            (omega arith))
