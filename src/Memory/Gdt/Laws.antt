-- ===== src/Memory/Gdt/Laws.antt =====
-- The descriptors of kernel/memory/gdt.c read back, and the table against its selectors.
use aosis.Base.{
  ℕ, ◌+◌, ◌*◌, ◌/◌, ◌%◌, ◌^◌, ◌≤◌, ◌<◌, ◌≡◌, refl, ◌∙◌, List, ◌∷◌, arith, bit_and, bit_or, length,
  get_or, set, u8,
}
use aosis.Bits.Digits.{bit_and_low, bit_and_shifted, bit_or_fields, bit_and_comm, bit_or_comm}
use aosis.Memory.Gdt.{
  GdtEntry, gdt_create_entry, Gdt, gdt_init, gdt_kernel_code_seg, gdt_kernel_data_seg, gdt_tss_seg,
  gdt_user_code_seg, gdt_user_data_seg, sizeof_tss,
}

-- What the processor reads from an entry: the base, the 20-bit limit and the four flags.
abbrev pub base_of : GdtEntry → ℕ
base_of e = e.base_3 * 2 ^ 24 + e.base_2 * 2 ^ 16 + e.base_1

abbrev pub limit_of : GdtEntry → ℕ
limit_of e = e.limit_and_flags % 16 * 2 ^ 16 + e.segment_limit_1

abbrev pub flags_of : GdtEntry → ℕ
flags_of e = e.limit_and_flags / 16

limit_low : (x : ℕ) → x < 2 ^ 32 → bit_and 0xFFFF x ≡ x % 2 ^ 16
limit_low x h = bit_and_comm 32 0xFFFF x (omega arith) h ∙ bit_and_low 16 x

base_low : (x : ℕ) → x < 2 ^ 32 → bit_and 0x00FFFF x ≡ x % 2 ^ 16
base_low = limit_low

base_middle : (x : ℕ) → x < 2 ^ 32 → bit_and 0xFF0000 x / 2 ^ 16 ≡ x / 2 ^ 16 % 2 ^ 8
base_middle x h = ground (
  arith,
  bit_and_comm 32 0xFF0000 x,
  bit_and_shifted 16 (x / 2 ^ 16) (x % 2 ^ 16) 255,
  bit_and_low 8 (x / 2 ^ 16),
)

base_high : (x : ℕ) → x < 2 ^ 32 → bit_and x 0xFF000000 / 2 ^ 24 ≡ x / 2 ^ 24
base_high x h =
    ground (arith, bit_and_shifted 24 (x / 2 ^ 24) (x % 2 ^ 24) 255, bit_and_low 8 (x / 2 ^ 24))

packed_byte :
    (limit flags : ℕ)
    → limit < 2 ^ 20
    → flags < 16
    → u8 (bit_or (bit_and (limit / 2 ^ 16) 0x0F) (bit_and (flags * 2 ^ 4) 0xF0))
      ≡ flags * 16 + limit / 2 ^ 16
packed_byte limit flags h f = ground (
  arith,
  bit_and_low 4 (limit / 2 ^ 16),
  bit_and_shifted 4 flags 0 15,
  bit_and_low 4 flags,
  bit_or_comm 8 (limit / 2 ^ 16) (flags * 16),
  bit_or_fields 4 flags (limit / 2 ^ 16),
)

-- The base, the limit and the flags that an entry was made of can be read back from its fields.
gdt_create_entry-fields :
    (segment_limit base access_byte flags : ℕ)
    → segment_limit < 2 ^ 20
    → base < 2 ^ 32
    → flags < 16
    → let e = gdt_create_entry segment_limit base access_byte flags in
      (base_of e ≡ base)
      × (limit_of e ≡ segment_limit)
      × (flags_of e ≡ flags)
      × (e.access_byte ≡ access_byte)
unfolding gdt_create_entry
gdt_create_entry-fields segment_limit base access_byte flags h g f =
    rw
      (
        limit_low segment_limit (omega arith),
        base_low base g,
        base_middle base g,
        base_high base g,
        packed_byte segment_limit flags h f,
      )
      (omega arith, omega arith, omega arith, refl)

six_entries :
    (t : List GdtEntry) (e₀ e₁ e₂ e₃ e₄ e₅ d : GdtEntry)
    → 6 ≤ length t
    → let t' = set (set (set (set (set (set t 0 e₀) 1 e₁) 2 e₂) 3 e₃) 4 e₄) 5 e₅ in
      (get_or t' 1 d ≡ e₁)
      × (get_or t' 2 d ≡ e₂)
      × (get_or t' 3 d ≡ e₃)
      × (get_or t' 4 d ≡ e₄)
      × (get_or t' 5 d ≡ e₅)
six_entries (a ∷ b ∷ c ∷ x ∷ y ∷ z ∷ t) e₀ e₁ e₂ e₃ e₄ e₅ d h = (refl, refl, refl, refl, refl)
six_entries _ e₀ e₁ e₂ e₃ e₄ e₅ d h = absurd (omega arith)

-- Each selector of the header finds, at its index times 8 and on a table of 64 entries, the descriptor that
-- its name says: flat 4 GiB segments with a present bit, executable for the code and not for the
-- data, at the privilege level of the selector; and the task state segment at its address.
gdt_init-selectors :
    (tss_addr table_addr descriptor_addr : ℕ) (g : Gdt)
    → length g.table ≡ 64
    → tss_addr < 2 ^ 32
    → let (result, g') = gdt_init tss_addr table_addr descriptor_addr g in
      let at = λ (selector : ℕ). get_or g'.table (selector / 8) (gdt_create_entry 0 0 0 0) in
      (at gdt_kernel_code_seg ≡ gdt_create_entry 0xFFFFF 0 0x9A 12)
      × (at gdt_kernel_data_seg ≡ gdt_create_entry 0xFFFFF 0 0x92 12)
      × (at gdt_user_code_seg ≡ gdt_create_entry 0xFFFFF 0 (0x9A + gdt_user_code_seg % 4 * 32) 12)
      × (at gdt_user_data_seg ≡ gdt_create_entry 0xFFFFF 0 (0x92 + gdt_user_data_seg % 4 * 32) 12)
      × (base_of (at gdt_tss_seg) ≡ tss_addr)
unfolding gdt_init
gdt_init-selectors tss_addr table_addr descriptor_addr g h t =
    let found = six_entries g.table _ _ _ _ _ _ (gdt_create_entry 0 0 0 0) (omega arith) in
    (
      found.0,
      found.1,
      found.3,
      found.4,
      rw found.2
          (gdt_create_entry-fields sizeof_tss tss_addr 0b10001001 0 (omega arith) t
            (omega arith)).0,
    )
