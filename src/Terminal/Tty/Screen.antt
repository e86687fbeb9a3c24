-- ===== src/Terminal/Tty/Screen.antt =====
-- The loops over the screen, cell by cell: what clearing and scrolling leave in the buffer.
use aosis.Base.{
  ℕ, ◌+◌, ◌*◌, ◌≤◌, ◌<◌, ◌≡◌, refl, List, arith, ltb, if◌then◌else◌, length, get_or, set,
  length-set, get_or-set, get_or-set_ne, for_range-keeps, ◌⊎◌,
}
use mathlib.Core.Path.{subst}
use aosis.Terminal.Vga.{vga_entry}
use aosis.Terminal.Tty.{fill_row, copy_row, clear_cells, move_rows_up, erase_last_row}

-- The first `k` cells of `b` have been moved up by a row, and the others are those of `a`.
record Moved (a : List ℕ) (k : ℕ) (b : List ℕ) : Type 0 where
  size : length b ≡ 2000
  done : (i : ℕ) → i < k → get_or b i 0 ≡ get_or a (i + 80) 0
  todo : (i : ℕ) → k ≤ i → get_or b i 0 ≡ get_or a i 0

Moved-set :
    (a b : List ℕ) (k : ℕ)
    → k < 1920
    → Moved a k b
    → Moved a (k + 1) (set b k (get_or b (k + 80) 0))
Moved-set a b k h m = record {
  size = omega (arith, m.size, length-set b k (get_or b (k + 80) 0));
  done = λ i p. ground (
    arith,
    m.size,
    m.done i,
    m.todo (k + 80) (omega arith),
    get_or-set b k i (get_or b (k + 80) 0) 0,
  );
  todo = λ i p. ground (arith, m.todo i, get_or-set_ne b k i (get_or b (k + 80) 0) 0);
}

Moved-row :
    (a b : List ℕ) (y : ℕ) → y < 24 → Moved a (y * 80) b → Moved a ((y + 1) * 80) (copy_row y b)
unfolding copy_row
Moved-row a b y h m =
    let row =
      for_range-keeps (λ x b'. Moved a (y * 80 + x) b')
        (λ x b'. set b' (y * 80 + x) (get_or b' ((y + 1) * 80 + x) 0)) 80 0 80 b refl
        (λ k t _ p q.
          let here : (y + 1) * 80 + k ≡ y * 80 + k + 80 = omega arith in
          let next : y * 80 + (k + 1) ≡ y * 80 + k + 1 = omega arith in
          rw (here, next) (Moved-set a t (y * 80 + k) (omega arith) q)) in
    let start : y * 80 + 0 ≡ y * 80 = omega arith in
    let end : y * 80 + 80 ≡ (y + 1) * 80 = omega arith in
    let lifted = row (rw start m) in subst (λ k. Moved a k (copy_row y b)) end lifted

move_rows_up-Moved : (a : List ℕ) → length a ≡ 2000 → Moved a 1920 (move_rows_up a)
unfolding move_rows_up
move_rows_up-Moved a h =
    for_range-keeps (λ y b. Moved a (y * 80) b) _ 24 0 24 a refl (λ k t _ p m. Moved-row a t k p m)
      (record { size = h; done = λ i p. absurd (omega arith); todo = λ i p. refl })

-- The cells from `lo` up to `k` of `b` hold `v`, and the others are those of `a`.
record Filled (a : List ℕ) (v lo k : ℕ) (b : List ℕ) : Type 0 where
  size : length b ≡ 2000
  inside : (i : ℕ) → lo ≤ i → i < k → get_or b i 0 ≡ v
  outside : (i : ℕ) → (i < lo) ⊎ (k ≤ i) → get_or b i 0 ≡ get_or a i 0

Filled-set :
    (a b : List ℕ) (v lo k : ℕ)
    → lo ≤ k
    → k < 2000
    → Filled a v lo k b
    → Filled a v lo (k + 1) (set b k v)
Filled-set a b v lo k l h m = record {
  size = omega (arith, m.size, length-set b k v);
  inside = λ i p q. ground (arith, m.size, m.inside i, get_or-set b k i v 0);
  outside = λ i p. ground (arith, m.outside i, get_or-set_ne b k i v 0);
}

Filled-row :
    (a b : List ℕ) (v lo y : ℕ)
    → lo ≤ y * 80
    → y < 25
    → Filled a v lo (y * 80) b
    → Filled a v lo ((y + 1) * 80) (fill_row v y b)
unfolding fill_row
Filled-row a b v lo y l h m =
    let row =
      for_range-keeps (λ x b'. Filled a v lo (y * 80 + x) b') (λ x b'. set b' (y * 80 + x) v) 80 0
        80 b refl
        (λ k t _ p q.
          let next : y * 80 + (k + 1) ≡ y * 80 + k + 1 = omega arith in
          rw next (Filled-set a t v lo (y * 80 + k) (omega arith) (omega arith) q)) in
    let start : y * 80 + 0 ≡ y * 80 = omega arith in
    let end : y * 80 + 80 ≡ (y + 1) * 80 = omega arith in
    let lifted = row (rw start m) in subst (λ k. Filled a v lo k (fill_row v y b)) end lifted

clear_cells-Filled :
    (color : ℕ) (a : List ℕ)
    → length a ≡ 2000
    → Filled a (vga_entry b' ' color) 0 2000 (clear_cells color a)
unfolding clear_cells
clear_cells-Filled color a h =
    for_range-keeps (λ y b. Filled a (vga_entry b' ' color) 0 (y * 80) b) _ 25 0 25 a refl
      (λ k t _ p m. Filled-row a t (vga_entry b' ' color) 0 k (omega arith) p m)
      (record { size = h; inside = λ i p q. absurd (omega arith); outside = λ i p. refl })

erase_last_row-Filled : (a : List ℕ) → length a ≡ 2000 → Filled a b' ' 1920 2000 (erase_last_row a)
unfolding erase_last_row
erase_last_row-Filled a h =
    Filled-row a a b' ' 1920 24 (omega arith) (omega arith)
      (record { size = h; inside = λ i p q. absurd (omega arith); outside = λ i p. refl })

-- Clearing a screen of 2000 cells puts a blank of the given colour in every cell.
pub clear_cells_lem :
    (color i : ℕ) (a : List ℕ)
    → length a ≡ 2000
    → i < 2000
    → (length (clear_cells color a) ≡ 2000)
      × (get_or (clear_cells color a) i 0 ≡ vga_entry b' ' color)
clear_cells_lem color i a h p =
    let filled = clear_cells-Filled color a h in (filled.size, filled.inside i (omega arith) p)

-- Scrolling a screen of 2000 cells keeps its size, moves each row but the first up by one, and leaves the
-- number 32 in each cell of the last row: a blank without the colour of the terminal.
pub scroll_cells :
    (a : List ℕ) (i : ℕ)
    → length a ≡ 2000
    → i < 2000
    → (length (erase_last_row (move_rows_up a)) ≡ 2000)
      × (get_or (erase_last_row (move_rows_up a)) i 0
          ≡ (if ltb i 1920 then get_or a (i + 80) 0 else 32))
scroll_cells a i h p =
    let moved = move_rows_up-Moved a h in
    let filled = erase_last_row-Filled (move_rows_up a) moved.size in
    ground (arith, filled.size, moved.done i, filled.inside i, filled.outside i)
