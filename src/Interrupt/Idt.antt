-- ===== src/Interrupt/Idt.antt =====
-- kernel/interrupt/interrupt.c: the interrupt descriptor table, the table of handlers and the two common
-- handlers. Addresses that the linker and the assembler give (the stubs `isr0` to `irq15`, the table itself,
-- `other_interrupt`) are arguments. A handler is its address, 0 for NULL; what a called handler does is not
-- part of this file.
pub mod Laws
use Prim.Native.Char.{code}
use Prim.Native.String.{String}
use aosis.Base.{
  ℕ, zero, suc, ◌+◌, ◌-◌, ◌*◌, ◌/◌, ◌%◌, ◌^◌, List, [], ◌∷◌, bit_and, ltb, leb, ◌==◌, if◌then◌else◌,
  length, get_or, set, replicate, for_range, Result, ok, fault, ◌>>=◌,
}
use aosis.Terminal.Tty.{Tty, outb, tty_putc}
use aosis.Terminal.Tty.Print.{tty_printstr, tty_printint}

-- struct idt_desc
pub record IdtDesc : Type 0 where
  pub offset_1 : ℕ
  pub selector : ℕ
  pub reserved : ℕ
  pub flags : ℕ
  pub offset_2 : ℕ

-- The file's globals, and the terminal whose log has the ports. `prev_int` is the static variable of
-- `isr_handler`.
pub record Interrupts : Type 0 where
  pub idt : List IdtDesc
  pub idt_handlers : List ℕ
  pub idtp_size : ℕ
  pub idtp_ptr : ℕ
  pub prev_int : ℕ
  pub tty : Tty

abbrev pub no_desc : IdtDesc
no_desc = record { offset_1 = 0; selector = 0; reserved = 0; flags = 0; offset_2 = 0 }

-- The entry that `idt_set_entry` leaves; the field `zero` keeps what it held.
unfoldable pub make_entry : IdtDesc → ℕ → ℕ → ℕ → IdtDesc
make_entry old handler sel flags = record old {
  offset_1 = bit_and handler 0xFFFF;
  offset_2 = bit_and (handler / 2 ^ 16) 0xFFFF;
  selector = sel;
  flags = flags;
}

unfoldable pub idt_set_entry : ℕ → ℕ → ℕ → ℕ → List IdtDesc → List IdtDesc
idt_set_entry index handler sel flags idt =
    set idt index (make_entry (get_or idt index no_desc) handler sel flags)

abbrev pub kernel_code_segment : ℕ
kernel_code_segment = 0x08

-- The remapping of the two interrupt controllers.
unfoldable pub remap_pic : Tty → Tty
remap_pic t = outb 0xA1 0x0 (
    outb 0x21 0x0 (
      outb 0xA1 0x01 (
        outb 0x21 0x01 (
          outb 0xA1 0x02 (
            outb 0x21 0x04
              (outb 0xA1 0x28 (outb 0x21 0x20 (outb 0xA0 0x11 (outb 0x20 0x11 t)))))))))

-- The loop over `idt_cfg`, whose entry `i` is the stub `i` with the kernel's code segment and the flags 0x8E.
unfoldable pub install_stubs : (ℕ → ℕ) → List IdtDesc → List IdtDesc
install_stubs stub idt =
    for_range 48 0 (λ i t. idt_set_entry i (stub i) kernel_code_segment 0x8E t) idt

-- The last loop, from `last`, 47, to 255: the entries, and the handlers.
unfoldable pub install_others : ℕ → List IdtDesc → List IdtDesc
install_others other idt = for_range (256 - 47) 47 (λ i t. idt_set_entry i other 0x08 0x8E t) idt

unfoldable pub other_handlers : ℕ → List ℕ → List ℕ
other_handlers other handlers = for_range (256 - 47) 47 (λ i t. set t i other) handlers

-- `load_idt_asm` and `sti` are machine instructions on what is left here.
unfoldable pub interrupt_init : (ℕ → ℕ) → ℕ → ℕ → Interrupts → Interrupts
interrupt_init stub other idt_addr s =
    let cleared = for_range 256 0 (λ i t. set t i no_desc) s.idt in
    let nulls = for_range 256 0 (λ i t. set t i 0) s.idt_handlers in
    record s {
      idt = install_others other (install_stubs stub cleared);
      idt_handlers = other_handlers other nulls;
      idtp_size = 8 * 256 - 1;
      idtp_ptr = idt_addr;
      tty = remap_pic s.tty;
    }

-- What a common handler does in the end: it calls a handler, or returns, or loops forever.
pub data Dispatch : Type 0 where
  calls : ℕ → Dispatch
  returns : Dispatch
  hangs : Dispatch

-- The call through the table; an interrupt number outside it is undefined.
unfoldable pub dispatch : ℕ → Interrupts → Result (Dispatch × Interrupts)
dispatch int_no s =
    let handle = get_or s.idt_handlers int_no 0 in
    if ltb int_no (length s.idt_handlers)
    then ok (if handle == 0 then returns else calls handle, s)
    else fault

unfoldable pub irq_handler : ℕ → Interrupts → Result (Dispatch × Interrupts)
irq_handler int_no s =
    let slave = if leb 40 int_no then outb 0xA0 0x20 s.tty else s.tty in
    dispatch int_no (record s { tty = outb 0x20 0x20 slave })

-- The bytes of a text literal.
abbrev pub codes : String → List ℕ
codes String.[] = []
codes (String.◌∷◌ c s) = code c ∷ codes s

abbrev reserved_msg : List ℕ
reserved_msg = codes "Reserved"

abbrev pub int_msgs : List (List ℕ)
int_msgs =
    codes "Divide by Zero"
    ∷ codes "Debug"
    ∷ codes "Non-Maskable Interrupt"
    ∷ codes "Breakpoint"
    ∷ codes "Overflow"
    ∷ codes "Bound Range Exceeded"
    ∷ codes "Invalid Opcode"
    ∷ codes "Device Not Available"
    ∷ codes "Double Fault"
    ∷ codes "CoProcessor Segment Overrun"
    ∷ codes "Invalid TSS"
    ∷ codes "Segment Not Present"
    ∷ codes "Stack Segment Fault"
    ∷ codes "General Protection Fault"
    ∷ codes "Page Fault"
    ∷ reserved_msg
    ∷ codes "Floating-Point Error"
    ∷ codes "Alignment Check"
    ∷ codes "Machine Check"
    ∷ codes "SIMD Floating Pointe Exception"
    ∷ codes "Virtualziation Exception"
    ∷ codes "Control Protection Exception"
    ∷ reserved_msg
    ∷ reserved_msg
    ∷ reserved_msg
    ∷ reserved_msg
    ∷ reserved_msg
    ∷ reserved_msg
    ∷ reserved_msg
    ∷ reserved_msg
    ∷ reserved_msg
    ∷ reserved_msg
    ∷ []

-- The message of `isr_handler`.
unfoldable pub report : ℕ → Tty → Tty
report int_no t = tty_printstr (codes ")\n") (
    tty_printstr (get_or int_msgs int_no []) (
      tty_printstr (codes " (")
        (tty_printint int_no (tty_printstr (codes "Received interrupt: ") t))))

-- A number without a message is undefined.
unfoldable pub isr_handler : ℕ → Interrupts → Result (Dispatch × Interrupts)
isr_handler int_no s =
    if int_no == s.prev_int
    then ok (hangs, record s { tty = tty_printstr (codes "...") s.tty })
    else if ltb int_no 32
    then dispatch int_no (record s { prev_int = int_no; tty = report int_no s.tty })
    else fault

unfoldable pub other_interrupt : ℕ → Tty → Tty
other_interrupt int_no t =
    tty_printint int_no (tty_printstr (codes "???SOMEOTHER INTERRUPT???\n") t)
