-- ===== src/MmuController/Enumerate.antt =====
-- The registers of the MMU in src/controllers/mmu_controller.c: how the CPU enumerates the devices.
use wolf_cpuemulator.Common.{
  ℕ, ◌/◌, ◌%◌, ◌<◌, ◌≡◌, refl, arith, false, ◌==◌, ◌&&◌, ltb, leb, if◌then◌else◌, some, Bool-cases,
  inl, inr, List, [], ◌∷◌,
}
use wolf_cpuemulator.Common.Bits.{bit_and_mask}
use wolf_cpuemulator.Endian.{
  bytes4_at, sep_int_for_2_bytes_l, get_int_from_2_bytes_l, get_int_from_4_bytes_l,
}
use wolf_cpuemulator.Bus.{BusController, BusDevice}
use wolf_cpuemulator.MmuController.Store.{run_mmu_regs, set_device}

module _ (r0 r1 r2 r3 r4 r5 r6 r7 r8 r9 r10 r11 : ℕ) (bus : BusController) (n : ℕ)
    (d : BusDevice) where
  abbrev before : List ℕ
  before = r0 ∷ r1 ∷ r2 ∷ r3 ∷ r4 ∷ r5 ∷ r6 ∷ r7 ∷ r8 ∷ r9 ∷ r10 ∷ r11 ∷ []

  abbrev value : ℕ
  value = get_int_from_4_bytes_l (record { b0 = r4; b1 = r5; b2 = r6; b3 = r7 })

  -- What the device becomes
  abbrev configured_device : BusDevice
  configured_device =
      if r2 == 2
      then (if leb 0xffff0000 value && ltb value 0xfffffd00
          then record d { base_address = value }
          else d)
      else if r2 == 3
      then record d { irq_number = r4 }
      else d

  run_mmu_regs-device :
      get_int_from_2_bytes_l r0 r1 ≡ n
      → n < 256
      → bus.devices n ≡ some d
      → run_mmu_regs before bus
        ≡ some (
          r0
              ∷ r1
              ∷ 0
              ∷ r3
              ∷ r4
              ∷ r5
              ∷ r6
              ∷ r7
              ∷ d.need_space
              ∷ r9
              ∷ (d.vendor_id % 256)
              ∷ (d.vendor_id / 256 % 256)
              ∷ [],
          set_device bus n configured_device,
        )
  unfolding run_mmu_regs sep_int_for_2_bytes_l bytes4_at
  run_mmu_regs-device e h there =
      let inside : ltb 256 n ≡ false = ground arith in
      let below : (n == 256) ≡ false = ground arith in
      rw (e, inside, below, there, bit_and_mask 8 d.vendor_id, bit_and_mask 8 (d.vendor_id / 256))

  configured_device_lem :
      (configured_device.base_address ≡ (
        if r2 == 2 && leb 0xffff0000 value && ltb value 0xfffffd00 then value else d.base_address))
      × (configured_device.irq_number ≡ (if r2 == 3 then r4 else d.irq_number))
      × (configured_device.vendor_id ≡ d.vendor_id)
      × (configured_device.need_space ≡ d.need_space)
      × (configured_device.device_base_status ≡ d.device_base_status)
  configured_device_lem = elim (Bool-cases (r2 == 2)) [
    | inl base ↦
        let other : (r2 == 3) ≡ false = ground arith in
        elim (Bool-cases (leb 0xffff0000 value && ltb value 0xfffffd00)) [
          | inl inside ↦ rw (base, other, inside) (refl, refl, refl, refl, refl)
          | inr outside ↦ rw (base, other, outside) (refl, refl, refl, refl, refl)
        ]
    | inr base ↦ elim (Bool-cases (r2 == 3)) [
      | inl irq ↦ rw (base, irq) (refl, refl, refl, refl, refl)
      | inr other ↦ rw (base, other) (refl, refl, refl, refl, refl)
    ]
  ]

-- What the MMU does once a write has left the twelve bytes `r0` to `r11` in its registers, the first two
-- of which are the number, below 256, of a device that is there. The command is cleared, the registers
-- show the device's vendor and the space it needs, and of all devices only this one may change: command
-- 2 sets its base to the value in `r4` to `r7` if that is in the region of the devices, command 3 sets
-- its interrupt to `r4`, and nothing else of it changes.
pub run_mmu_regs_lem :
    (r0 r1 r2 r3 r4 r5 r6 r7 r8 r9 r10 r11 : ℕ) (bus : BusController) (n : ℕ) (d : BusDevice)
    → get_int_from_2_bytes_l r0 r1 ≡ n
    → n < 256
    → bus.devices n ≡ some d
    → let regs = r0 ∷ r1 ∷ r2 ∷ r3 ∷ r4 ∷ r5 ∷ r6 ∷ r7 ∷ r8 ∷ r9 ∷ r10 ∷ r11 ∷ [] in
      let value = get_int_from_4_bytes_l (record { b0 = r4; b1 = r5; b2 = r6; b3 = r7 }) in
      (d' : BusDevice) × (run_mmu_regs regs bus
        ≡ some (
          r0
              ∷ r1
              ∷ 0
              ∷ r3
              ∷ r4
              ∷ r5
              ∷ r6
              ∷ r7
              ∷ d.need_space
              ∷ r9
              ∷ (d.vendor_id % 256)
              ∷ (d.vendor_id / 256 % 256)
              ∷ [],
          record bus { devices = λ i. if i == n then some d' else bus.devices i },
        ))
      × (d'.base_address ≡ (
          if r2 == 2 && leb 0xffff0000 value && ltb value 0xfffffd00
          then value
          else d.base_address))
      × (d'.irq_number ≡ (if r2 == 3 then r4 else d.irq_number))
      × (d'.vendor_id ≡ d.vendor_id)
      × (d'.need_space ≡ d.need_space)
      × (d'.device_base_status ≡ d.device_base_status)
unfolding set_device
run_mmu_regs_lem r0 r1 r2 r3 r4 r5 r6 r7 r8 r9 r10 r11 bus n d e h there =
    let (base, irq, vendor, space, status) =
      configured_device_lem r0 r1 r2 r3 r4 r5 r6 r7 r8 r9 r10 r11 bus n d in
    (
      configured_device r0 r1 r2 r3 r4 r5 r6 r7 r8 r9 r10 r11 bus n d,
      run_mmu_regs-device r0 r1 r2 r3 r4 r5 r6 r7 r8 r9 r10 r11 bus n d e h there,
      base,
      irq,
      vendor,
      space,
      status,
    )
