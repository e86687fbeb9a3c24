-- ===== src/Interrupt/Pic.antt =====
-- kernel/interrupt/pic.c: the timer, whose tick ends in a call of `scheduler`.
pub mod Laws
use aosis.Base.{ℕ, ◌+◌, ◌/◌, ◌^◌, Bool, bit_and, ◌==◌, if◌then◌else◌, u8, u32, Result, ok, fault}
use aosis.Terminal.Tty.{Tty, outb, tty_putc}
use aosis.Terminal.Tty.Print.{tty_printstr, tty_printint}
use aosis.Interrupt.Idt.{Interrupts, codes}
use aosis.Base.{set}
use aosis.Task.Switch.{Tasks, scheduler}

-- The file's statics, with the interrupt tables, the terminal that it writes, and the tasks.
pub record Pic : Type 0 where
  pub print : Bool
  pub tick : ℕ
  pub interrupts : Interrupts
  pub tasks : Tasks

abbrev on_tty : (Tty → Tty) → Pic → Pic
on_tty f p = record p { interrupts = record p.interrupts { tty = f p.interrupts.tty } }

unfoldable pub pic_callback : Pic → Pic
pic_callback p =
    let ticked = record p { tick = u32 (p.tick + 1) } in
    let shown =
      on_tty (λ t. tty_putc 10 (tty_printint ticked.tick (tty_printstr (codes "Tick: ") t)))
        ticked in
    if ticked.print
    then record shown { tasks = scheduler p.tasks }
    else record ticked { tasks = scheduler p.tasks }

unfoldable pub pic_get_tick : Pic → ℕ
pic_get_tick p = p.tick

-- What `pic_init` leaves after sending the bytes `l` and `h`.
unfoldable pub programmed : ℕ → Bool → ℕ → ℕ → Pic → Pic
programmed callback print_tick l h p =
    on_tty (λ t. outb 0x40 h (outb 0x40 l (outb 0x43 0x36 t)))
      (record p {
        print = print_tick;
        interrupts = record p.interrupts {
          idt_handlers = set p.interrupts.idt_handlers 32 callback;
        };
      })

-- `callback` is the address of `pic_callback`. Division by zero is undefined.
unfoldable pub pic_init : ℕ → ℕ → Bool → Pic → Result Pic
pic_init callback frequency print_tick p =
    let divisor = 1193180 / frequency in
    let l = u8 (bit_and divisor 0xFF) in
    let h = u8 (bit_and (divisor / 2 ^ 8) 0xFF) in
    if frequency == 0 then fault else ok (programmed callback print_tick l h p)
