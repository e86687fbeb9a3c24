-- ===== src/Interrupt/Pic/Laws.antt =====
-- The divisor that `pic_init` of kernel/interrupt/pic.c programs, and the ticks that are counted.
use aosis.Base.{
  u8, bit_and, ℕ, zero, suc, ◌+◌, ◌*◌, ◌/◌, ◌%◌, ◌^◌, ◌≤◌, ◌<◌, ◌≡◌, ◌∙◌, ap, refl, Bool, ◌∷◌,
  arith, length, get_or, get_or-set_self, ok, for_range,
}
use aosis.Bits.Digits.{bit_and_low}
use aosis.Terminal.Tty.{outb}
use aosis.Task.Switch.{scheduler}
use aosis.Interrupt.Pic.{Pic, pic_callback, pic_get_tick, pic_init, programmed}

divisor_fits : (frequency : ℕ) → 19 ≤ frequency → 1193180 / frequency < 65536
divisor_fits frequency h = grind arith

-- For a frequency of at least 19 Hz, and with a table of 256 handlers, `pic_init` installs the
-- tick handler for vector 32 and sends the timer its command and the two bytes of the divisor
-- 1193180 / frequency, which fits 16 bits.
pic_init-divisor :
    (callback frequency : ℕ) (print_tick : Bool) (p : Pic)
    → 19 ≤ frequency
    → length p.interrupts.idt_handlers ≡ 256
    → (p' : Pic) × (l : ℕ) × (h : ℕ) × (pic_init callback frequency print_tick p ≡ ok p')
      × (p'.interrupts.tty.ports ≡ (0x40, h) ∷ (0x40, l) ∷ (0x43, 0x36) ∷ p.interrupts.tty.ports)
      × (l < 256)
      × (h < 256)
      × (h * 256 + l ≡ 1193180 / frequency)
      × (get_or p'.interrupts.idt_handlers 32 0 ≡ callback)
unfolding pic_init programmed outb
pic_init-divisor callback frequency print_tick p f len =
    let divisor = 1193180 / frequency in
    let small = divisor_fits frequency f in
    let l = divisor % 256 in
    let h = divisor / 256 in
    let low : u8 (bit_and divisor 0xFF) ≡ l = omega (arith, bit_and_low 8 divisor) in
    let high : u8 (bit_and (divisor / 2 ^ 8) 0xFF) ≡ h =
      omega (arith, small, bit_and_low 8 (divisor / 2 ^ 8)) in
    (
      programmed callback print_tick l h p,
      l,
      h,
      rw (low, high) (ground arith),
      refl,
      omega arith,
      omega (arith, small),
      omega arith,
      get_or-set_self p.interrupts.idt_handlers 32 callback 0 (omega arith),
    )

tick-callback :
    (p : Pic)
    → ((pic_callback p).tick ≡ (p.tick + 1) % 2 ^ 32) × ((pic_callback p).tasks ≡ scheduler p.tasks)
unfolding pic_callback
tick-callback p = ground arith

-- After `n` timer interrupts the tick that `pic_get_tick` returns has grown by `n`, modulo 2 ^ 32, and the
-- scheduler has been called `n` times.
pic_get_tick-callback :
    (n i : ℕ) (p : Pic)
    → p.tick < 2 ^ 32
    → let p' = for_range n i (λ _ q. pic_callback q) p in
      (pic_get_tick p' ≡ (p.tick + n) % 2 ^ 32)
      × (p'.tasks ≡ for_range n i (λ _ t. scheduler t) p.tasks)
unfolding pic_get_tick for_range
pic_get_tick-callback zero i p h = (omega arith, refl)
pic_get_tick-callback (suc n) i p h =
    let (ticks, tasks) = tick-callback p in
    let later = pic_get_tick-callback n (i + 1) (pic_callback p) (omega (arith, ticks)) in
    (omega (arith, ticks, later.0), later.1 ∙ ap (for_range n (i + 1) (λ _ t. scheduler t)) tasks)
