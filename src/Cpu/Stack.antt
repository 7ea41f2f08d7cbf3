-- ===== src/Cpu/Stack.antt =====
-- A PUSH and the POP after it, through src/cpu_execute.c, src/cpu_mem.c and the real MMU.
use wolf_cpuemulator.Common.{
  ℕ, ◌+◌, ◌%◌, ◌^◌, ◌<◌, ◌≡◌, sym, ap, ◌∙◌, arith, false, Option, some, none, List, u8, u32, sub32,
  add32, is_set, if◌then◌else◌,
}
use wolf_cpuemulator.Common.Bits.{bit_or-zero_below, zero-bit_or}
use wolf_cpuemulator.Logic.{through32}
use wolf_cpuemulator.Logic.Select.{through32_one, through32_zero}
use wolf_cpuemulator.Endian.{Bytes4, mov_be, get_int_from_4_bytes_l, sep_int_for_4_bytes_l}
use wolf_cpuemulator.Endian.RoundTrip.{AreBytes, sep_int_l-AreBytes, get_int-sep_int}
use wolf_cpuemulator.Bus.{World}
use wolf_cpuemulator.Cache.{l1_cgroup}
use wolf_cpuemulator.Cache.Load.{empty_group}
use wolf_cpuemulator.Cpu.State.{Cpu, is_pgo_on}
use wolf_cpuemulator.Cpu.Isa.{icode_push, icode_pop}
use wolf_cpuemulator.Cpu.Fetch.{MmuStatus}
use wolf_cpuemulator.Cpu.Port.{Bus, Mmu, MmuData}
use wolf_cpuemulator.Cpu.Execute.{execute, set_val_c, exec_push, exec_pop}
use wolf_cpuemulator.Cpu.Memory.{
  check_access, memory, store, load_stack, write_addr_of, write_data_of, read_addr_of,
}
use wolf_cpuemulator.MmuController.Access.{Machine, answered, mmu_memory_rd_f}
use wolf_cpuemulator.MmuController.Store.{step, mmu_port, mmu_memory_wr_f, done}
use wolf_cpuemulator.MmuController.Reread.{mmu_memory_rd_f-mmu_memory_wr_f_near}

-- An instruction of the stack in flight
pub record IsOnStack (icode : ℕ) (c : Cpu) : Type 0 where
  pub running : c.temp_data_reg.noexception ≡ 1
  pub code : c.temp_data_reg.icode ≡ icode
  pub plain : c.temp_data_reg.ex_flag ≡ 0

execute-push : (c : Cpu) → IsOnStack icode_push c → execute c ≡ exec_push c
unfolding execute
execute-push c h = rw (h.running, h.code)

execute-pop : (c : Cpu) → IsOnStack icode_pop c → execute c ≡ exec_pop c
unfolding execute
execute-pop c h = rw (h.running, h.code)

write_addr_of-push :
    (c : Cpu) → IsOnStack icode_push c → write_addr_of c ≡ u32 c.temp_data_reg.val_b
unfolding write_addr_of
write_addr_of-push c h = rw h.code (through32_one c.temp_data_reg.val_b)

write_data_of-push :
    (c : Cpu) → IsOnStack icode_push c → write_data_of c ≡ u32 c.temp_data_reg.val_c
unfolding write_data_of
write_data_of-push c h =
    let t = c.temp_data_reg in
    rw h.code (
      rw (through32_one t.val_c, through32_zero t.val_p)
        (bit_or-zero_below (2 ^ 32) (u32 t.val_c) (omega arith)))

read_addr_of-pop :
    (c : Cpu) → IsOnStack icode_pop c → read_addr_of c ≡ u32 (sub32 c.temp_data_reg.val_b 4)
unfolding read_addr_of
read_addr_of-pop c h =
    let t = c.temp_data_reg in
    rw h.code (
      rw (through32_one (sub32 t.val_b 4), through32_zero t.val_a)
        (zero-bit_or (u32 (sub32 t.val_b 4))))

module _ {S : Type 0} (mmu : Mmu S) where
  memory-push :
      (c : Cpu) (s : S)
      → IsOnStack icode_push c
      → memory mmu c s ≡ store mmu c (u32 c.temp_data_reg.val_b) (u32 c.temp_data_reg.val_c) 15 s
  unfolding memory mov_be through32
  memory-push c s h =
      rw (write_addr_of-push c h, write_data_of-push c h, h.plain) (rw (h.running, h.code))

  memory-pop :
      (c : Cpu) (s : S)
      → IsOnStack icode_pop c
      → memory mmu c s ≡ load_stack mmu c (u32 (sub32 c.temp_data_reg.val_b 4)) 15 s
  unfolding memory mov_be through32
  memory-pop c s h = rw (read_addr_of-pop c h, h.plain) (rw (h.running, h.code))

cut_bytes :
    (x : Bytes4)
    → AreBytes x
    → record { b0 = u8 x.b0; b1 = u8 x.b1; b2 = u8 x.b2; b3 = u8 x.b3 } ≡ x
cut_bytes x h =
    let e0 : u8 x.b0 ≡ x.b0 = omega (arith, h.byte0) in
    let e1 : u8 x.b1 ≡ x.b1 = omega (arith, h.byte1) in
    let e2 : u8 x.b2 ≡ x.b2 = omega (arith, h.byte2) in
    let e3 : u8 x.b3 ≡ x.b3 = omega (arith, h.byte3) in
    λ i. record { b0 = e0 i; b1 = e1 i; b2 = e2 i; b3 = e3 i }

module _ {D : Type 0} (bus : Bus (World D)) (file : List ℕ) (m : Machine D) where
  step-some :
      (f : Machine D → Option (MmuStatus × Machine D)) (r : MmuStatus) (m' : Machine D)
      → f m ≡ some (r, m')
      → step f (some m) ≡ (r, some m')
  unfolding step
  step-some f r m' e =
      let after : Option (MmuStatus × Machine D) → MmuStatus × Option (Machine D) =
        λ o. elim o [ none ↦ (done, none) | some (answer, m1) ↦ (answer, some m1) ] in
      ap after e

  store-written :
      (c : Cpu) (addr value : ℕ) (m' : Machine D)
      → mmu_memory_wr_f bus c.spe_regs addr
          (record { bytes = sep_int_for_4_bytes_l value; be = 15 })
          m
        ≡ some (done, m')
      → store (mmu_port bus file) c addr value 15 (some m) ≡ (c, some m')
  unfolding store mmu_port
  store-written c addr value m' written =
      let data' : MmuData = record { bytes = sep_int_for_4_bytes_l value; be = 15 } in
      ap (λ x. (check_access c x.0.stat addr, x.1))
        (step-some (mmu_memory_wr_f bus c.spe_regs addr data') done m' written)

  load_stack-answered :
      (c : Cpu) (addr : ℕ) (w : Bytes4) (m' : Machine D)
      → mmu_memory_rd_f bus file c.spe_regs addr 15 0 m ≡ some (answered w, m')
      → load_stack (mmu_port bus file) c addr 15 (some m)
        ≡ (set_val_c c (get_int_from_4_bytes_l w), some m')
  unfolding load_stack mmu_port
  load_stack-answered c addr w m' reads =
      ap
        (λ x. (
          if is_set x.0.stat
              then check_access c x.0.stat addr
              else set_val_c c (get_int_from_4_bytes_l x.0.bytes),
          x.1,
        ))
        (step-some (mmu_memory_rd_f bus file c.spe_regs addr 15 0) (answered w) m' reads)

  after_push :
      (c : Cpu) (a : ℕ) (m' : Machine D)
      → IsOnStack icode_push c
      → u32 (sub32 c.temp_data_reg.val_b 4) ≡ a
      → u32 c.temp_data_reg.val_a ≡ c.temp_data_reg.val_a
      → mmu_memory_wr_f bus c.spe_regs a
          (record { bytes = sep_int_for_4_bytes_l c.temp_data_reg.val_a; be = 15 })
          m
        ≡ some (done, m')
      → memory (mmu_port bus file) (execute c) (some m) ≡ (exec_push c, some m')
  unfolding exec_push
  after_push c a m' p ea ev written =
      let p' : IsOnStack icode_push (exec_push c) = record {
        running = p.running;
        code = p.code;
        plain = p.plain;
      } in
      rw (execute-push c p) (
        memory-push (mmu_port bus file) (exec_push c) (some m) p'
        ∙ ap
            (λ x. store (mmu_port bus file) (exec_push c) x (u32 c.temp_data_reg.val_a) 15 (some m))
            ea
        ∙ ap (λ x. store (mmu_port bus file) (exec_push c) a x 15 (some m)) ev
        ∙ store-written (exec_push c) a c.temp_data_reg.val_a m' written)

  after_pop :
      (d : Cpu) (a : ℕ) (w : Bytes4) (m' : Machine D)
      → IsOnStack icode_pop d
      → u32 (sub32 (add32 d.temp_data_reg.val_b 4) 4) ≡ a
      → mmu_memory_rd_f bus file d.spe_regs a 15 0 m ≡ some (answered w, m')
      → memory (mmu_port bus file) (execute d) (some m)
        ≡ (set_val_c (exec_pop d) (get_int_from_4_bytes_l w), some m')
  unfolding exec_pop
  after_pop d a w m' q ea reads =
      let q' : IsOnStack icode_pop (exec_pop d) = record {
        running = q.running;
        code = q.code;
        plain = q.plain;
      } in
      rw (execute-pop d q) (
        memory-pop (mmu_port bus file) (exec_pop d) (some m) q'
        ∙ ap (λ x. load_stack (mmu_port bus file) (exec_pop d) x 15 (some m)) ea
        ∙ load_stack-answered (exec_pop d) a w m' reads)

module _ {D : Type 0} (bus : Bus (World D)) (file : List ℕ) (m : Machine D) where
  -- A word is pushed, and the next instruction pops it from where the stack pointer then is, each by
  -- the execute and memory stages over the MMU of the source. With paging off, neither stage stops an
  -- instruction, the pop gets the word that was pushed, and its new stack pointer is the one before
  -- the push. Both instructions are in flight with no extra field, on 32-bit operands and the same
  -- special registers. The place of the word has to be aligned, below 2 ^ 31 - 4 and in the first 16
  -- bytes of a line of 128, and its group in the first-level cache empty.
  pub exec_pop-exec_push :
      (c d : Cpu)
      → IsOnStack icode_push c
      → IsOnStack icode_pop d
      → c.temp_data_reg.val_a < 2 ^ 32
      → c.temp_data_reg.val_b < 2 ^ 32
      → is_pgo_on c.spe_regs.bcr ≡ false
      → d.spe_regs ≡ c.spe_regs
      → d.temp_data_reg.val_b ≡ sub32 c.temp_data_reg.val_b 4
      → d.temp_data_reg.val_b % 4 ≡ 0
      → d.temp_data_reg.val_b + 4 < 2 ^ 31
      → d.temp_data_reg.val_b % 128 < 16
      → m.cache1 (l1_cgroup d.temp_data_reg.val_b) ≡ empty_group
      → let (c', s) = memory (mmu_port bus file) (execute c) (some m) in
        let (d', s') = memory (mmu_port bus file) (execute d) s in
        (c'.temp_data_reg.noexception ≡ 1)
        × (c'.temp_data_reg.val_b ≡ d.temp_data_reg.val_b)
        × (d'.temp_data_reg.noexception ≡ 1)
        × (d'.temp_data_reg.val_b ≡ c.temp_data_reg.val_b)
        × (d'.temp_data_reg.val_c ≡ c.temp_data_reg.val_a)
  unfolding exec_push exec_pop
  exec_pop-exec_push c d p q wa wb off same sp al low near fresh =
      let a = d.temp_data_reg.val_b in
      let v = c.temp_data_reg.val_a in
      let bytes = sep_int_for_4_bytes_l v in
      let (m', m'', written, reads) =
        mmu_memory_rd_f-mmu_memory_wr_f_near m a bytes bus file c.spe_regs 0 off al low near
          fresh in
      let w : Bytes4 = record {
        b0 = u8 bytes.b0;
        b1 = u8 bytes.b1;
        b2 = u8 bytes.b2;
        b3 = u8 bytes.b3;
      } in
      let stored = after_push bus file m c a m' p (omega arith) (omega arith) written in
      let loaded = after_pop bus file m' d a w m'' q (omega arith) (rw same reads) in
      let value : get_int_from_4_bytes_l w ≡ v =
        ap get_int_from_4_bytes_l (cut_bytes bytes (sep_int_l-AreBytes v))
        ∙ (get_int-sep_int v wa).0 in
      rw (stored, loaded) (p.running, sym sp, q.running, omega arith, value)
