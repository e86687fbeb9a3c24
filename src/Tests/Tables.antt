-- ===== src/Tests/Tables.antt =====
-- The interrupt table, the timer and the segment descriptors.
use aosis.Base.{
  ◌-◌, ℕ, ◌+◌, ◌*◌, ◌^◌, ◌≡◌, refl, true, false, List, [], ◌∷◌, arith, length, get_or, replicate,
  length-replicate,
}
use aosis.Terminal.Tty.{Tty}
use aosis.Interrupt.Idt.{IdtDesc, Interrupts, no_desc, interrupt_init, codes}
use aosis.Interrupt.Idt.Laws.{target, interrupt_init-vectors}
use aosis.Task.Switch.{Tasks}
use aosis.Interrupt.Pic.{Pic}
use aosis.Memory.Gdt.{Gdt, gdt_create_entry}

unfoldable screen : Tty
screen = record { tty_xpos = 0; tty_ypos = 0; tty_color = 15; tty_buffer = []; ports = [] }

unfoldable idt_zero : List IdtDesc
idt_zero = replicate 256 no_desc

length-idt_zero : length idt_zero ≡ 256
unfolding idt_zero
length-idt_zero = length-replicate 256 no_desc

unfoldable handlers_zero : List ℕ
handlers_zero = replicate 256 0

length-handlers_zero : length handlers_zero ≡ 256
unfolding handlers_zero
length-handlers_zero = length-replicate {A = ℕ} 256 0

abbrev boot : Interrupts
boot = record {
  idt = idt_zero;
  idt_handlers = handlers_zero;
  idtp_size = 0;
  idtp_ptr = 0;
  prev_int = 2 ^ 32 - 1;
  tty = screen;
}

abbrev stub : ℕ → ℕ
stub i = 0xC0100000 + i * 16

-- Vector 47 leads to `other_interrupt`, not to its stub.
interrupt_init-vectors_example :
    let s' = interrupt_init stub 0xC0200000 0xC0300000 boot in
    (target (get_or s'.idt 47 no_desc) ≡ 0xC0200000)
    × ((get_or s'.idt 47 no_desc).selector ≡ 0x08)
    × ((get_or s'.idt 47 no_desc).flags ≡ 0x8E)
    × ((get_or s'.idt 47 no_desc).reserved ≡ 0)
    × (get_or s'.idt_handlers 47 0 ≡ 0xC0200000)
interrupt_init-vectors_example =
    interrupt_init-vectors stub 0xC0200000 0xC0300000 47 boot length-idt_zero length-handlers_zero
      (omega arith) (omega arith) (omega arith)

abbrev one_task : Tasks
one_task = record {
  tasks = λ _. record {
    trapframe = 0;
    page_directory_phys = 0;
    pid = 0;
    is_user = false;
    kernel_stack_base = 0;
    next_task = 0x1000;
  };
  frames = λ _. record { ds = 0; eip = 0; cs = 0; eflags = 0; esp = 0; ss = 0 };
  current_task = 0x1000;
  task_list_head = 0x1000;
  task_list_tail = 0x1000;
  scheduler_initialized = true;
  esp0 = 0;
}

abbrev pic : Pic
pic = record { print = false; tick = 2 ^ 32 - 2; interrupts = boot; tasks = one_task }

abbrev gdt : Gdt
gdt = record {
  table = replicate 64 (gdt_create_entry 0 0 0 0);
  descriptor_size = 0;
  descriptor_addr = 0;
  esp0 = 0;
  ss0 = 0;
}

newline_code : codes ")\n" ≡ b')' ∷ 10 ∷ []
newline_code = refl
