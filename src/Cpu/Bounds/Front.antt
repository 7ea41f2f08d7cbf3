-- ===== src/Cpu/Bounds/Front.antt =====
-- The stages of one cycle up to memory, and `writeback` behind them.
use wolf_cpuemulator.Common.{◌≡◌, arith, ◌∙◌}
use wolf_cpuemulator.Cpu.State.{Cpu}
use wolf_cpuemulator.Cpu.Trap.{access_check, ecall_proc, ecall_dispatch, ecall, eret, iret}
use wolf_cpuemulator.Cpu.Fetch.{MmuStatus, fetch_data}
use wolf_cpuemulator.Cpu.Decode.{decode}
use wolf_cpuemulator.Cpu.Execute.{execute}
use wolf_cpuemulator.Cpu.Cycle.{front_stages}
use wolf_cpuemulator.Cpu.Bounds.Pipeline.{fetch_data-IsFetched, access_check-keeps}
use wolf_cpuemulator.Cpu.Bounds.Pipeline.{AreInBounds, decode-AreInBounds}
use wolf_cpuemulator.Cpu.Bounds.Pipeline.{fetch_data-gen_regs, decode-gen_regs}
use wolf_cpuemulator.Cpu.Bounds.Execute.{Keeps, Keeps-trans, Keeps-AreInBounds, execute-Keeps}

ecall_proc-Keeps : (c : Cpu) → Keeps c (ecall_proc c)
unfolding ecall_proc ecall_dispatch ecall eret iret
ecall_proc-Keeps c = ground arith

decoded-AreInBounds :
    (c : Cpu) (answer : MmuStatus)
    → AreInBounds (decode (access_check (fetch_data c answer))).temp_data_reg
decoded-AreInBounds c answer =
    let f = fetch_data c answer in
    decode-AreInBounds (access_check f)
      (rw ((access_check-keeps f).0) (fetch_data-IsFetched c answer))

decoded-gen_regs :
    (c : Cpu) (answer : MmuStatus)
    → (decode (access_check (fetch_data c answer))).gen_regs ≡ c.gen_regs
decoded-gen_regs c answer =
    let f = fetch_data c answer in
    decode-gen_regs (access_check f) ∙ (access_check-keeps f).1 ∙ fetch_data-gen_regs c answer

front_stages-Keeps :
    (c : Cpu) (answer : MmuStatus)
    → Keeps (decode (access_check (fetch_data c answer))) (front_stages c answer)
unfolding front_stages
front_stages-Keeps c answer =
    let e = decode (access_check (fetch_data c answer)) in
    Keeps-trans e (execute e) (ecall_proc (execute e)) (execute-Keeps e)
      (ecall_proc-Keeps (execute e))

pub front_stages-gen_regs :
    (c : Cpu) (answer : MmuStatus) → (front_stages c answer).gen_regs ≡ c.gen_regs
front_stages-gen_regs c answer = (front_stages-Keeps c answer).same_gen ∙ decoded-gen_regs c answer

pub front_stages-AreInBounds :
    (c : Cpu) (answer : MmuStatus) → AreInBounds (front_stages c answer).temp_data_reg
front_stages-AreInBounds c answer =
    Keeps-AreInBounds (decode (access_check (fetch_data c answer))) (front_stages c answer)
      (front_stages-Keeps c answer) (decoded-AreInBounds c answer)
