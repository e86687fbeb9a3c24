-- ===== src/Memory/Gdt.antt =====
-- kernel/memory/gdt.c: the global descriptor table. The access byte and the byte of flags and limit are
-- reinterpreted as bit fields in the source; here they stay bytes.
pub mod Laws
use aosis.Base.{ℕ, ◌+◌, ◌*◌, ◌/◌, ◌^◌, List, [], ◌∷◌, bit_and, bit_or, set, u8, u32}

-- struct gdt_entry
pub record GdtEntry : Type 0 where
  pub segment_limit_1 : ℕ
  pub base_1 : ℕ
  pub base_2 : ℕ
  pub access_byte : ℕ
  pub limit_and_flags : ℕ
  pub base_3 : ℕ

unfoldable pub gdt_create_entry : ℕ → ℕ → ℕ → ℕ → GdtEntry
gdt_create_entry segment_limit base access_byte flags = record {
  segment_limit_1 = bit_and 0xFFFF segment_limit;
  base_1 = bit_and 0x00FFFF base;
  base_2 = bit_and 0xFF0000 base / 2 ^ 16;
  access_byte = access_byte;
  limit_and_flags =
      u8 (bit_or (bit_and (segment_limit / 2 ^ 16) 0x0F) (bit_and (flags * 2 ^ 4) 0xF0));
  base_3 = bit_and base 0xFF000000 / 2 ^ 24;
}

-- The file's statics: the table of 64 entries, the descriptor, and the two fields of the task state
-- segment that are ever written.
pub record Gdt : Type 0 where
  pub table : List GdtEntry
  pub descriptor_size : ℕ
  pub descriptor_addr : ℕ
  pub esp0 : ℕ
  pub ss0 : ℕ

abbrev pub gdt_kernel_code_seg : ℕ
gdt_kernel_code_seg = 0x08

abbrev pub gdt_kernel_data_seg : ℕ
gdt_kernel_data_seg = 0x10

abbrev pub gdt_tss_seg : ℕ
gdt_tss_seg = 0x18

abbrev pub gdt_user_code_seg : ℕ
gdt_user_code_seg = 0x23

abbrev pub gdt_user_data_seg : ℕ
gdt_user_data_seg = 0x2B

-- sizeof(tss_region): 26 words, aligned to 128 bytes
abbrev pub sizeof_tss : ℕ
sizeof_tss = 128

-- `tss_addr`, `table_addr` and `descriptor_addr` are the addresses of the file's statics; the result is
-- the last of them.
unfoldable pub gdt_init : ℕ → ℕ → ℕ → Gdt → ℕ × Gdt
gdt_init tss_addr table_addr descriptor_addr g =
    let t₀ = set g.table 0 (gdt_create_entry 0 0 0 0) in
    let t₁ = set t₀ 1 (gdt_create_entry 0xFFFFF 0 0b10011010 0b1100) in
    let t₂ = set t₁ 2 (gdt_create_entry 0xFFFFF 0 0b10010010 0b1100) in
    let t₃ = set t₂ 3 (gdt_create_entry sizeof_tss tss_addr 0b10001001 0) in
    let t₄ = set t₃ 4 (gdt_create_entry 0xFFFFF 0 0b11111010 0b1100) in
    let t₅ = set t₄ 5 (gdt_create_entry 0xFFFFF 0 0b11110010 0b1100) in
    (
      descriptor_addr,
      record g {
        table = t₅;
        descriptor_size = 6 * 8;
        descriptor_addr = table_addr;
        ss0 = gdt_kernel_data_seg;
      },
    )

unfoldable pub gdt_update_tss : ℕ → Gdt → Gdt
gdt_update_tss user_kernel_stack g = record g { esp0 = user_kernel_stack }
