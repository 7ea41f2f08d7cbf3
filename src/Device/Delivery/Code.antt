-- ===== src/Device/Delivery/Code.antt =====
-- The number of the interrupt: what `irq_call` makes of the answer of the bus.
use wolf_cpuemulator.Common.{
  ℕ, zero, suc, ◌+◌, ◌<◌, ◌≡◌, ap, refl, List, [], ◌∷◌, true, ◌==◌, ◌&&&◌, length, get_or,
  all_below, all_below_sound, ==_iff, u8,
}
use wolf_cpuemulator.Endian.{get_int_from_4_bytes_l}
use wolf_cpuemulator.Cpu.Port.{Bus}
use wolf_cpuemulator.Cpu.Irq.{ask_irqcode, processing_request, bus_irq_controller_device_base_addr}

-- A list of registers, register by register
abbrev pub tabulated : ℕ → (ℕ → ℕ) → List ℕ
tabulated zero f = []
tabulated (suc n) f = f 0 ∷ tabulated n (λ i. f (suc i))

pub tabulated-get_or : (xs : List ℕ) → xs ≡ tabulated (length xs) (λ i. get_or xs i 0)
tabulated-get_or [] = refl
tabulated-get_or (x ∷ xs) = ap (λ ys. x ∷ ys) (tabulated-get_or xs)

pub ask_irqcode-sent :
    {S : Type 0} (port : Bus S) (s s1 : S)
    → (port.send_data bus_irq_controller_device_base_addr processing_request s).1 ≡ s1
    → let received =
        port.recv_data (bus_irq_controller_device_base_addr + 2) processing_request s1 in
      ask_irqcode port s ≡ (get_int_from_4_bytes_l received.0.bytes &&& 0xff, received.1)
unfolding ask_irqcode
ask_irqcode-sent port s s1 h =
    ap
      (λ t.
        let received =
          port.recv_data (bus_irq_controller_device_base_addr + 2) processing_request t in
        (get_int_from_4_bytes_l received.0.bytes &&& 0xff, received.1))
      h

code_table :
    all_below 64 (λ v.
      get_int_from_4_bytes_l (record { b0 = u8 (u8 v); b1 = 0; b2 = 0; b3 = 0 }) &&& 0xff == v)
    ≡ true
unfolding all_below get_int_from_4_bytes_l
code_table = refl

pub first-code :
    (v : ℕ)
    → v < 64
    → get_int_from_4_bytes_l (record { b0 = u8 (u8 v); b1 = 0; b2 = 0; b3 = 0 }) &&& 0xff ≡ v
first-code v small =
    let code =
      get_int_from_4_bytes_l (record { b0 = u8 (u8 v); b1 = 0; b2 = 0; b3 = 0 }) &&& 0xff in
    (==_iff code v).0 (
      all_below_sound 64
        (λ v.
          get_int_from_4_bytes_l (record { b0 = u8 (u8 v); b1 = 0; b2 = 0; b3 = 0 }) &&& 0xff == v)
        v code_table small)
