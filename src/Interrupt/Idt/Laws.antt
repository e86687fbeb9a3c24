-- ===== src/Interrupt/Idt/Laws.antt =====
-- The table that `interrupt_init` builds, and how the common handlers of kernel/interrupt/interrupt.c dispatch.
use aosis.Base.{
  ℕ, ◌+◌, ◌*◌, ◌/◌, ◌^◌, ◌≤◌, ◌<◌, ◌≡◌, ◌≢◌, refl, ◌∙◌, List, ◌∷◌, arith, ltb, leb, ◌==◌,
  if◌then◌else◌, length, get_or, set, length-set, get_or-set, for_range, for_range-keeps, ok, ◌>>=◌,
  ◌⊎◌,
}
use native.Mathlib.Decide.{dec_lt}
use aosis.Terminal.Tty.{outb}
use aosis.Bits.Digits.{bit_and_low}
use aosis.Interrupt.Idt.{
  IdtDesc, Interrupts, no_desc, make_entry, idt_set_entry, install_stubs, install_others,
  other_handlers, interrupt_init, calls, returns, hangs, dispatch, irq_handler, isr_handler,
}

-- The handler's address that the processor puts together from an entry.
abbrev pub target : IdtDesc → ℕ
target e = e.offset_2 * 2 ^ 16 + e.offset_1

-- An entry leads back to the address that it was made for, with the selector and flags given.
pub target-make_entry :
    (old : IdtDesc) (handler sel flags : ℕ)
    → handler < 2 ^ 32
    → target (make_entry old handler sel flags) ≡ handler
unfolding make_entry
target-make_entry old handler sel flags h =
    rw (bit_and_low 16 handler, bit_and_low 16 (handler / 2 ^ 16)) (omega arith)

-- A loop that writes `f k old` to each place `k` of a range.
module _ {A : Type 0} (d : A) (f : ℕ → A → A) (start : List A) (lo : ℕ) where
  record Written (k : ℕ) (t : List A) : Type 0 where
    size : length t ≡ length start
    inside : (i : ℕ) → lo ≤ i → i < k → get_or t i d ≡ f i (get_or start i d)
    outside : (i : ℕ) → (i < lo) ⊎ (k ≤ i) → get_or t i d ≡ get_or start i d

  Written-set :
      (k : ℕ) (t : List A)
      → lo ≤ k
      → k < length start
      → Written k t
      → Written (k + 1) (set t k (f k (get_or t k d)))
  Written-set k t l h w = record {
    size = length-set t k (f k (get_or t k d)) ∙ w.size;
    inside = λ i p q.
        ground (arith, w.size, w.inside i, w.outside i, get_or-set t k i (f k (get_or t k d)) d);
    outside = λ i p. ground (arith, w.size, w.outside i, get_or-set t k i (f k (get_or t k d)) d);
  }

  loop-Written :
      (n hi : ℕ)
      → lo + n ≡ hi
      → hi ≤ length start
      → Written hi (for_range n lo (λ k t. set t k (f k (get_or t k d))) start)
  loop-Written n hi e h =
      for_range-keeps Written _ n lo hi start e (λ k t l p w. Written-set k t l (omega arith) w)
        (record { size = refl; inside = λ i p q. absurd (omega arith); outside = λ i p. refl })

make_entry-fields :
    (handler : ℕ)
    → let e = make_entry no_desc handler 0x08 0x8E in
      (e.selector ≡ 0x08) × (e.flags ≡ 0x8E) × (e.reserved ≡ 0)
unfolding make_entry
make_entry-fields handler = (refl, refl, refl)

make_entry_twice :
    (a b : ℕ)
    → make_entry (make_entry no_desc a 0x08 0x8E) b 0x08 0x8E ≡ make_entry no_desc b 0x08 0x8E
unfolding make_entry
make_entry_twice a b = refl

vector_entry :
    (stub : ℕ → ℕ) (other i : ℕ) (idt : List IdtDesc)
    → length idt ≡ 256
    → i < 256
    → get_or
        (install_others other (install_stubs stub (for_range 256 0 (λ k t. set t k no_desc) idt)))
        i
        no_desc
      ≡ make_entry no_desc (if ltb i 47 then stub i else other) 0x08 0x8E
unfolding install_stubs install_others idt_set_entry
vector_entry stub other i idt h p =
    let t₁ = for_range 256 0 (λ k t. set t k no_desc) idt in
    let w₁ = loop-Written no_desc (λ _ _. no_desc) idt 0 256 256 refl (omega arith) in
    let w₂ =
      loop-Written no_desc (λ k e. make_entry e (stub k) 0x08 0x8E) t₁ 0 48 48 refl
        (omega (arith, w₁.size)) in
    let t₂ =
      for_range 48 0 (λ k t. set t k (make_entry (get_or t k no_desc) (stub k) 0x08 0x8E)) t₁ in
    let w₃ =
      loop-Written no_desc (λ _ e. make_entry e other 0x08 0x8E) t₂ 47 209 256 refl
        (omega (arith, w₁.size, w₂.size)) in
    elim (dec_lt i 47) [
      | yes low ↦ ground (arith, w₁.inside i, w₂.inside i, w₃.outside i)
      | no high ↦ elim (dec_lt 47 i) [
        | yes above ↦ ground (arith, w₁.inside i, w₂.outside i, w₃.inside i)
        | no at ↦
            ground (arith, w₁.inside i, w₂.inside i, w₃.inside i, make_entry_twice (stub i) other)
      ]
    ]

vector_handler :
    (other i : ℕ) (handlers : List ℕ)
    → length handlers ≡ 256
    → i < 256
    → get_or (other_handlers other (for_range 256 0 (λ k t. set t k 0) handlers)) i 0
      ≡ (if ltb i 47 then 0 else other)
unfolding other_handlers
vector_handler other i handlers h p =
    let t₁ = for_range 256 0 (λ k t. set t k 0) handlers in
    let w₁ = loop-Written 0 (λ _ _. 0) handlers 0 256 256 refl (omega arith) in
    let w₂ = loop-Written 0 (λ _ _. other) t₁ 47 209 256 refl (omega (arith, w₁.size)) in
    ground (arith, w₁.inside i, w₂.inside i, w₂.outside i)

vector_count :
    (other : ℕ) (handlers : List ℕ)
    → length handlers ≡ 256
    → length (other_handlers other (for_range 256 0 (λ k t. set t k 0) handlers)) ≡ 256
unfolding other_handlers
vector_count other handlers h =
    let t₁ = for_range 256 0 (λ k t. set t k 0) handlers in
    let w₁ = loop-Written 0 (λ _ _. 0) handlers 0 256 256 refl (omega arith) in
    let w₂ = loop-Written 0 (λ _ _. other) t₁ 47 209 256 refl (omega (arith, w₁.size)) in
    w₂.size ∙ w₁.size ∙ h

-- The table of handlers that `interrupt_init` leaves.
pub interrupt_init-handlers :
    (stub : ℕ → ℕ) (other idt_addr : ℕ) (s : Interrupts)
    → length s.idt_handlers ≡ 256
    → let handlers = (interrupt_init stub other idt_addr s).idt_handlers in
      (length handlers ≡ 256)
      × ((i : ℕ) → i < 256 → get_or handlers i 0 ≡ (if ltb i 47 then 0 else other))
unfolding interrupt_init
interrupt_init-handlers stub other idt_addr s h =
    (vector_count other s.idt_handlers h, λ i p. vector_handler other i s.idt_handlers h p)

-- After `interrupt_init`, on tables of 256 places and with handlers at 32-bit addresses: each
-- vector below 47 leads to its own stub and has no handler; vector 47, the last of the second
-- controller, and all above lead to `other_interrupt`, which is their handler too, in place of the
-- stub `irq15`.
pub interrupt_init-vectors :
    (stub : ℕ → ℕ) (other idt_addr i : ℕ) (s : Interrupts)
    → length s.idt ≡ 256
    → length s.idt_handlers ≡ 256
    → i < 256
    → stub i < 2 ^ 32
    → other < 2 ^ 32
    → let s' = interrupt_init stub other idt_addr s in
      let e = get_or s'.idt i no_desc in
      (target e ≡ (if ltb i 47 then stub i else other))
      × (e.selector ≡ 0x08)
      × (e.flags ≡ 0x8E)
      × (e.reserved ≡ 0)
      × (get_or s'.idt_handlers i 0 ≡ (if ltb i 47 then 0 else other))
unfolding interrupt_init
interrupt_init-vectors stub other idt_addr i s hi hh p q r =
    let handler = if ltb i 47 then stub i else other in
    let made = make_entry-fields handler in
    rw (vector_entry stub other i s.idt hi p) (
      target-make_entry no_desc handler 0x08 0x8E (ground arith),
      made.0,
      made.1,
      made.2,
      vector_handler other i s.idt_handlers hh p,
    )

-- An interrupt request with a number in the table of handlers is acknowledged at the first
-- controller last, and before it at the second if its number is 40 or above; then the handler in
-- the table is called, if there is one. No other state changes.
pub irq_handler_lem :
    (int_no : ℕ) (s : Interrupts)
    → int_no < length s.idt_handlers
    → (s' : Interrupts) × (irq_handler int_no s
        ≡ ok (
          if get_or s.idt_handlers int_no 0 == 0
              then returns
              else calls (get_or s.idt_handlers int_no 0),
          s',
        ))
      × (s'.tty.ports
          ≡ (0x20, 0x20) ∷ (if leb 40 int_no then (0xA0, 0x20) ∷ s.tty.ports else s.tty.ports))
      × (s'.idt_handlers ≡ s.idt_handlers)
unfolding irq_handler dispatch outb
irq_handler_lem int_no s h = (
  record s { tty = outb 0x20 0x20 (if leb 40 int_no then outb 0xA0 0x20 s.tty else s.tty) },
  ground arith,
  ground arith,
  refl,
)

-- When an exception with a number below 32 and in the table of handlers, other than the one before
-- it, comes twice in a row, `isr_handler` returns from the first and stops the kernel for good at
-- the second.
isr_handler-repeats :
    (int_no : ℕ) (s : Interrupts)
    → int_no < 32
    → int_no < length s.idt_handlers
    → int_no ≢ s.prev_int
    → (isr_handler int_no s >>= λ (_, s'). isr_handler int_no s' >>= λ (d, _). ok d) ≡ ok hangs
unfolding isr_handler dispatch
isr_handler-repeats int_no s h l ne = ground arith
