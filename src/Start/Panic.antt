-- ===== src/Start/Panic.antt =====
-- `panic` of kernel/kernel.c, and the page fault handler of kernel/memory/paging.c, which ends
-- in it.
use aosis.Base.{ℕ, ◌≡◌, refl, Option, none, some, List, [], ◌∷◌, Result, ok, ◌>>=◌}
use aosis.Terminal.Tty.{Tty}
use aosis.Terminal.Tty.Print.{num, str, kprintf, tty_printstr, tty_printhex}
use aosis.Terminal.Tty.Print.Format.{
  text, hexadecimal, string, format_of, args_of, show, percents, kprintf-pieces,
}
use aosis.Interrupt.Idt.{codes}
use aosis.Start.Text.{is_plain, is_plain_lem}

-- What `panic` prints before it loops forever.
unfoldable pub panic_text : Option (List ℕ) → Tty → Result (ℕ × Tty)
panic_text none t = kprintf (codes "KERNEL PANIC!!\n") [] t
panic_text (some msg) t = kprintf (codes "KERNEL PANIC: %s\n") (str msg ∷ []) t

-- The terminal when the handler's call of `panic` loops; the argument is the register cr2.
unfoldable pub paging_page_fault_handler : ℕ → Tty → Result (ℕ × Tty)
paging_page_fault_handler faulting_address t =
    kprintf (codes "page fault occurred\n") [] t >>= λ (_, t₁).
    kprintf (codes "faulting address: %x\n") (num faulting_address ∷ []) t₁ >>= λ (_, t₂).
    panic_text (some (codes "page fault occurred\n")) t₂

-- `panic` prints the message behind its prefix, and a new line.
panic_text-message :
    (msg : List ℕ) (s : Tty)
    → panic_text (some msg) s
      ≡ ok (
        17,
        tty_printstr (codes "\n") (tty_printstr msg (tty_printstr (codes "KERNEL PANIC: ") s)),
      )
unfolding panic_text format_of args_of show percents is_plain
panic_text-message msg s =
    kprintf-pieces (text (codes "KERNEL PANIC: ") ∷ string msg ∷ text (codes "\n") ∷ []) s
      (is_plain_lem (codes "KERNEL PANIC: ") refl, (is_plain_lem (codes "\n") refl, tt))

-- On a page fault the terminal shows that it happened, the faulting address in hexadecimal, and
-- then the message of `panic` behind its prefix; that message brings its own new line and gets
-- another.
paging_page_fault_handler-shows :
    (addr : ℕ) (s : Tty)
    → let title = codes "page fault occurred\n" in
      let reported =
        tty_printhex addr (tty_printstr (codes "faulting address: ") (tty_printstr title s)) in
      paging_page_fault_handler addr s
      ≡ ok (
        17,
        tty_printstr (codes "\n") (
            tty_printstr title
              (tty_printstr (codes "KERNEL PANIC: ") (tty_printstr (codes "\n") reported))),
      )
unfolding paging_page_fault_handler format_of args_of show percents is_plain
paging_page_fault_handler-shows addr s =
    let title = codes "page fault occurred\n" in
    let at =
      kprintf-pieces (text (codes "faulting address: ") ∷ hexadecimal addr ∷ text (codes "\n") ∷ [])
        (tty_printstr title s)
        (is_plain_lem (codes "faulting address: ") refl, (is_plain_lem (codes "\n") refl, tt)) in
    rw (kprintf-pieces (text title ∷ []) s (is_plain_lem title refl, tt), at)
      (panic_text-message title _)
