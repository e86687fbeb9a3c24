-- ===== src/Memory/Userspace/Link.antt =====
-- One page that kernel/memory/paging.c gives the user program: its table and the directory's entry for that.
use aosis.Base.{
  ℕ, suc, ◌+◌, ◌*◌, ◌^◌, ◌≤◌, ◌<◌, ◌≡◌, ◌≢◌, ◌⊎◌, ◌∙◌, inl, inr, refl, ap, sym, arith, true, false,
  ◌==◌, u32, ok,
}
use aosis.Memory.Pmm.Alloc
use aosis.Memory.Paging.{
  Paging, PageDirectory, PageTableEntry, page_directory_index, page_table_index,
  set_directory_entry, set_table_entry,
}
use aosis.Memory.Paging.Walk.{page_table_index_lem}
use aosis.Memory.Vmm.{Vmm, vmm_get_phys_addr}
use aosis.Memory.Vmm.Free.{vmm_get_phys_addr-head}
use aosis.Memory.Userspace.{
  user_table_entry, user_directory_entry, link_user_page, add_user_page, stack_address_base,
}
use aosis.Memory.Userspace.Ready.{page_at, Ready, vmm_alloc_page-Ready}

-- The frame to which `table` maps a page.
abbrev pub phys_of : ℕ → ℕ → Paging → ℕ
phys_of table page s = u32 ((s.tables table (page_table_index page)).phys_addr * 2 ^ 12)

pub get_phys_addr-Ready :
    (table p n page : ℕ) (s : Vmm)
    → Ready table p n s
    → vmm_get_phys_addr page s ≡ phys_of table page s.paging
get_phys_addr-Ready table p n page s r =
    vmm_get_phys_addr-head page r.block r.behind s r.head (omega (arith, r.base))
    ∙ ap (λ (t : ℕ). phys_of t page s.paging) r.at

-- Other entries do not matter to the next allocation, nor do other frames.
pub repaged-Ready :
    (table p n : ℕ) (s : Vmm) (paging' : Paging)
    → Ready table p n s
    → Alloc.IsValid paging'.pmm
    → paging'.kernel_page_directory ≡ s.paging.kernel_page_directory
    → Ready table p n (record s { paging = paging' })
repaged-Ready table p n s paging' r pmm root = record {
  block = r.block;
  behind = r.behind;
  head = r.head;
  base = r.base;
  at = r.at;
  size = r.size;
  words = r.words;
  count = r.count;
  mark = r.mark;
  room = r.room;
  used = r.used;
  free = r.free;
  pmm = pmm;
  table_below = r.table_below;
  root_below = omega (arith, root, r.root_below);
}

pub keeps-Ready :
    (table p n : ℕ) (s : Vmm) (paging' : Paging)
    → Ready table p n s
    → paging'.pmm ≡ s.paging.pmm
    → paging'.kernel_page_directory ≡ s.paging.kernel_page_directory
    → Ready table p n (record s { paging = paging' })
keeps-Ready table p n s paging' r pmm root = repaged-Ready table p n s paging' r (rw pmm r.pmm) root

-- What `add_user_page` changes, with page `p` as the new table.
pub record Linked (table p directory virt phys : ℕ) (s s' : Paging) : Type 0 where
  pub entry : s'.tables (page_at p) (page_table_index virt) ≡ user_table_entry phys
  pub link :
      s'.directories directory (page_directory_index virt)
      ≡ user_directory_entry (phys_of table (page_at p) s')
  pub directories :
      (i : ℕ)
      → i ≢ page_directory_index virt
      → s'.directories directory i ≡ s.directories directory i
  pub others :
      (t i : ℕ)
      → t ≢ page_at p
      → ((t ≡ table) × (i ≡ page_table_index (page_at p))) ⊎ (s'.tables t i ≡ s.tables t i)

pub add_user_page_lem :
    (new_vmm_block table p n directory virt phys : ℕ) (s : Vmm)
    → Ready table p (suc n) s
    → (s' : Vmm) × (add_user_page new_vmm_block directory virt phys s ≡ ok s')
      × Ready table (p + 1) n s'
      × Linked table p directory virt phys s.paging s'.paging
unfolding add_user_page link_user_page set_directory_entry set_table_entry
add_user_page_lem new_vmm_block table p n directory virt phys s r =
    let (s₁, made, r₁, maps, _) = vmm_alloc_page-Ready new_vmm_block table p n s r in
    let found = get_phys_addr-Ready table (p + 1) n (page_at p) s₁ r₁ in
    let paging' =
      link_user_page directory (page_at p) (phys_of table (page_at p) s₁.paging) virt
        (user_table_entry phys) s₁.paging in
    let apart : (page_at p == table) ≡ false = ground (arith, r.table_below) in
    let there : (directory == directory) ≡ true = ground arith in
    let index : (page_directory_index virt == page_directory_index virt) ≡ true = ground arith in
    let linked : paging'.directories directory (page_directory_index virt)
        ≡ user_directory_entry (phys_of table (page_at p) paging') =
      rw (there, index, apart) refl in
    (
      record s₁ { paging = paging' },
      rw (made, found) refl,
      keeps-Ready table (p + 1) n s₁ paging' r₁ refl refl,
      record {
        entry = ground arith;
        link = linked;
        directories = λ i ne.
            ground (arith, ap (λ (m : ℕ → PageDirectory). m directory i) maps.same_directories);
        others = λ t i ne. ground (arith, maps.others t i);
      },
    )

index_at : (q : ℕ) → q < 1024 → page_table_index (page_at q) ≡ q
index_at q h = page_table_index_lem (page_at q) ∙ omega arith

-- A page allocated before page `p` keeps its frame when only the entry of page `p` may change.
pub phys_same :
    (table p q : ℕ) (s s' : Paging)
    → q < p
    → p < 1022
    → ((table ≡ table) × (page_table_index (page_at q) ≡ page_table_index (page_at p)))
      ⊎ (s'.tables table (page_table_index (page_at q))
          ≡ s.tables table (page_table_index (page_at q)))
    → phys_of table (page_at q) s' ≡ phys_of table (page_at q) s
phys_same table p q s s' before room (inl (_, same)) =
    absurd (omega (arith, same, index_at p (omega arith), index_at q (omega arith)))
phys_same table p q s s' before room (inr kept) =
    ap (λ (e : PageTableEntry). u32 (e.phys_addr * 2 ^ 12)) kept

phys_kept :
    (table p q directory virt phys : ℕ) (s s' : Paging)
    → q < p
    → p < 1022
    → table < page_at p
    → Linked table p directory virt phys s s'
    → phys_of table (page_at q) s' ≡ phys_of table (page_at q) s
phys_kept table p q directory virt phys s s' before room below l =
    phys_same table p q s s' before room
      (l.others table (page_table_index (page_at q)) (omega arith))

pub user_indices :
    (page_directory_index 0 ≡ 0)
    × (page_table_index 0 ≡ 0)
    × (page_directory_index stack_address_base ≡ 767)
    × (page_table_index stack_address_base ≡ 1023)
unfolding page_directory_index page_table_index
user_indices = (refl, refl, refl, refl)

-- What stands in the directory and in both tables after a page at 0 and one below the kernel's base were added.
module _ (table p d phys : ℕ) (s s₁ s₂ : Paging) (room : p + 1 < 1022) (below : table < page_at p)
    (l₁ : Linked table p d 0 phys s s₁)
    (l₂ : Linked table (p + 1) d stack_address_base phys s₁ s₂) where
  pub program_linked : s₂.directories d 0 ≡ user_directory_entry (phys_of table (page_at p) s₂)
  program_linked =
      let (zero_pd, _, stack_pd, _) = user_indices in
      let link = rw zero_pd at l₁.link in
      l₂.directories 0 (omega (arith, stack_pd))
      ∙ link
      ∙ ap user_directory_entry (
          sym (
            phys_kept table (p + 1) p d stack_address_base phys s₁ s₂ (omega arith) room
              (omega arith) l₂))

  pub program_entry : s₂.tables (page_at p) 0 ≡ user_table_entry phys
  program_entry =
      let entry = rw (user_indices.1) at l₁.entry in
      elim (l₂.others (page_at p) 0 (omega arith)) [
        | inl (same, _) ↦ absurd (omega (arith, same))
        | inr kept ↦ kept ∙ entry
      ]

  pub stack_linked :
      s₂.directories d 767 ≡ user_directory_entry (phys_of table (page_at (p + 1)) s₂)
  stack_linked = let stack_pd = user_indices.2 in rw stack_pd at l₂.link

  pub stack_entry : s₂.tables (page_at (p + 1)) 1023 ≡ user_table_entry phys
  stack_entry = let stack_pt = user_indices.3 in rw stack_pt at l₂.entry

  pub kernel_kept : (i : ℕ) → 768 ≤ i → s₂.directories d i ≡ s.directories d i
  kernel_kept i h =
      let (zero_pd, _, stack_pd, _) = user_indices in
      l₂.directories i (omega (arith, stack_pd)) ∙ l₁.directories i (omega (arith, zero_pd))

  pub earlier_kept : (q : ℕ) → q < p → phys_of table (page_at q) s₂ ≡ phys_of table (page_at q) s
  earlier_kept q h =
      phys_kept table (p + 1) q d stack_address_base phys s₁ s₂ (omega arith) room (omega arith) l₂
      ∙ phys_kept table p q d 0 phys s s₁ h (omega arith) below l₁
