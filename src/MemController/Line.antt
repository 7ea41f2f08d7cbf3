-- ===== src/MemController/Line.antt =====
-- What `rd_memory` of src/controllers/mem_controller.c reads of a line of 128 bytes.
use wolf_cpuemulator.Common.{
  ℕ, zero, suc, ◌+◌, ◌-◌, ◌*◌, ◌/◌, ◌^◌, ◌<◌, ◌≡◌, refl, arith, ◌∙◌, ap, sym, subst, List, [], ◌∷◌,
  ◌++◌, replicate, length, get_or, length-append, length-replicate, flag, leb, ltb, u32, not32,
  ◌&&&◌, if◌then◌else◌, Bool-cases, inl, inr,
}
use wolf_cpuemulator.Common.Bits.{bit_and_step, bit_and_mask}
use wolf_cpuemulator.Ram.{Ram, operate, operate_rd, read_bytes}
use wolf_cpuemulator.Ram.Cells.{byte_at}
use wolf_cpuemulator.Ram.Operate.{bytes_from, read_bytes_lem}
use wolf_cpuemulator.MemController.{rd_memory, rd_memory_4b, memcpy}

-- Copying all of a list over a list of the same length
memcpy_all : (xs ys : List ℕ) → length xs ≡ length ys → memcpy (length xs) xs ys ≡ xs
memcpy_all [] [] h = refl
memcpy_all [] (y ∷ ys) h = absurd (omega (arith, h))
memcpy_all (x ∷ xs) [] h = absurd (omega (arith, h))
memcpy_all (x ∷ xs) (y ∷ ys) h = ap (λ t. x ∷ t) (memcpy_all xs ys (omega (arith, h)))

length-bytes_from : (ram : Ram) (a n : ℕ) → length (bytes_from ram a n) ≡ n
length-bytes_from ram a zero = refl
length-bytes_from ram a (suc n) = ap suc (length-bytes_from ram (u32 (a + 1)) n)

get_or-padded :
    (xs : List ℕ) (n i : ℕ)
    → get_or (xs ++ replicate n 0) i 0 ≡ (if ltb i (length xs) then get_or xs i 0 else 0)
get_or-padded [] zero i = ground arith
get_or-padded [] (suc n) zero = ground arith
get_or-padded [] (suc n) (suc i) = ground (arith, get_or-padded [] n i)
get_or-padded (x ∷ xs) n zero = ground arith
get_or-padded (x ∷ xs) n (suc i) = ground (arith, get_or-padded xs n i)

get_or-bytes_from :
    (ram : Ram) (a n i : ℕ)
    → i < n
    → a + n < 2 ^ 32
    → get_or (bytes_from ram a n) i 0 ≡ byte_at ram (a + i)
get_or-bytes_from ram a zero i h k = absurd (omega arith)
get_or-bytes_from ram a (suc n) zero h k = ap (byte_at ram) (omega arith)
get_or-bytes_from ram a (suc n) (suc i) h k =
    let e : u32 (a + 1) ≡ a + 1 = omega arith in
    let e' : a + 1 + i ≡ a + suc i = omega arith in
    rw e (get_or-bytes_from ram (a + 1) n i (omega arith) (omega arith) ∙ ap (byte_at ram) e')

-- Clearing the seven low bits of a word: four of them, and then three
clear_four : (a : ℕ) → (a &&& 2 ^ 32 - 128) ≡ (a / 2 / 2 / 2 / 2 &&& 2 ^ 28 - 8) * 16
clear_four a = omega (
  arith,
  bit_and_step a (2 ^ 32 - 128),
  bit_and_step (a / 2) (2 ^ 31 - 64),
  bit_and_step (a / 2 / 2) (2 ^ 30 - 32),
  bit_and_step (a / 2 / 2 / 2) (2 ^ 29 - 16),
)

clear_three : (a : ℕ) → a < 2 ^ 28 → (a &&& 2 ^ 28 - 8) ≡ a / 8 * 8
clear_three a h = omega (
  arith,
  bit_and_step a (2 ^ 28 - 8),
  bit_and_step (a / 2) (2 ^ 27 - 4),
  bit_and_step (a / 2 / 2) (2 ^ 26 - 2),
  bit_and_mask 25 (a / 2 / 2 / 2),
)

clear_low : (a : ℕ) → a < 2 ^ 32 → (a &&& not32 127) ≡ a / 128 * 128
clear_low a h = clear_four a ∙ omega (arith, clear_three (a / 2 / 2 / 2 / 2) (omega arith))

module _ (ram : Ram) (a : ℕ) where
  abbrev line_of : ℕ
  line_of = a / 128 * 128

  rd_memory-in_range :
      line_of + 32 < 2 ^ 31
      → ((rd_memory ram a).0.dmem_error ≡ 0)
        × ((rd_memory ram a).0.bytes
            ≡ memcpy 128 ((read_bytes ram line_of 32).0 ++ replicate 96 0) (replicate 128 0))
  unfolding rd_memory operate operate_rd
  rd_memory-in_range h =
      let line = clear_low a (omega arith) in
      let in_range : flag (leb (2 ^ 31) (u32 (line_of + 32))) ≡ 0 = ground arith in
      (rw (line, in_range), rw (line, in_range))

  -- `rd_memory` changes what no address holds, in range or not.
  pub byte_at-rd_memory : (b : ℕ) → byte_at (rd_memory ram a).1 b ≡ byte_at ram b
  unfolding rd_memory operate operate_rd
  byte_at-rd_memory b = (read_bytes_lem ram (a &&& not32 127) 32).1 b

  pub byte_at-rd_memory_4b : (be b : ℕ) → byte_at (rd_memory_4b ram a be).1 b ≡ byte_at ram b
  unfolding rd_memory_4b operate operate_rd
  byte_at-rd_memory_4b be b = (read_bytes_lem ram a 4).1 b

  read_line : List ℕ
  read_line = (read_bytes ram line_of 32).0 ++ replicate 96 0

  length-read_line : length read_line ≡ 128
  unfolding read_line
  length-read_line = rw ((read_bytes_lem ram line_of 32).0) (
      omega (
        arith,
        length-append (bytes_from ram line_of 32) (replicate 96 0),
        length-bytes_from ram line_of 32,
        length-replicate {A = ℕ} 96 0,
      ))

  copied : memcpy 128 read_line (replicate 128 0) ≡ read_line
  copied =
      subst (λ n. memcpy n read_line (replicate 128 0) ≡ read_line) length-read_line
        (memcpy_all read_line (replicate 128 0)
          (length-read_line ∙ sym (length-replicate {A = ℕ} 128 0)))

  -- In a line below the top of memory, `rd_memory` reports no error and gives the first 32 of the
  -- line's 128 bytes; the other 96 are 0, whatever memory holds there.
  pub rd_memory_lem :
      line_of + 32 < 2 ^ 31
      → ((rd_memory ram a).0.dmem_error ≡ 0)
        × ((i : ℕ)
            → get_or (rd_memory ram a).0.bytes i 0
              ≡ (if ltb i 32 then byte_at ram (line_of + i) else 0))
  unfolding read_line
  rd_memory_lem h =
      let (ok, bytes) = rd_memory-in_range h in
      (
        ok,
        λ i.
            rw
              (
                bytes,
                copied,
                (read_bytes_lem ram line_of 32).0,
                get_or-padded (bytes_from ram line_of 32) 96 i,
                length-bytes_from ram line_of 32,
              )
              (elim (Bool-cases (ltb i 32)) [
                | inl e ↦ rw e (get_or-bytes_from ram line_of 32 i (ground arith) (omega arith))
                | inr e ↦ rw e
              ]),
      )
