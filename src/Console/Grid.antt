-- ===== src/Console/Grid.antt =====
-- lib/console.c: the cells of the console as a grid of rows and columns.
use neko_os_c.Prelude.{
  ℕ, zero, suc, ◌+◌, ◌-◌, ◌*◌, ◌^◌, ◌≤◌, ◌<◌, ◌≡◌, refl, ap, ◌∙◌, true, ◌&&◌, ◌==◌, u32, arith, inl,
  inr, ◌⊎◌,
}
use native.Mathlib.Nat.{mul-le-mul_right, eq-or-lt_of_le, suc-mul}
use neko_os_c.Console.{Console, Glyph, store, fill_cells, scrolled, move_cells, blank}

-- The buffer holds the grid, and the cursor stands in it.
pub record IsGrid (k : Console) : Type 0 where
  pub in_row : k.cursor_x < k.cols
  pub in_column : k.cursor_y < k.rows
  pub size_fits : k.rows * k.cols < 2 ^ 32
  pub rows_fit : k.rows < 2 ^ 32
  pub cols_fit : k.cols < 2 ^ 32
  pub allocated : k.has_buffer ≡ true

abbrev pub cell : Console → (x y : ℕ) → Glyph
cell k x y = k.buffer (y * k.cols + x)

-- The rows are apart in the buffer.
row_above : (n x y y' : ℕ) → x < n → y < y' → y * n + x < y' * n
row_above n x y y' lx ly = omega (arith, mul-le-mul_right n ly, suc-mul y n)

pub index_fits :
    (k : Console) (x y : ℕ) → x < k.cols → y < k.rows → y * k.cols + x < k.rows * k.cols
index_fits k x y lx ly = row_above k.cols x y k.rows lx ly

order_cases : (a b : ℕ) → (a < b) ⊎ ((a ≡ b) ⊎ (b < a))
order_cases a b = ground arith

pub same_index :
    (n x y x' y' : ℕ) → x < n → x' < n → (y' * n + x' == y * n + x) ≡ ((y' == y) && (x' == x))
same_index n x y x' y' l l' = elim (order_cases y y') [
  | inl less ↦ ground (arith, row_above n x y y' l less)
  | inr (inl same) ↦ ground (arith, ap (λ z. z * n) same)
  | inr (inr more) ↦ ground (arith, row_above n x' y' y l' more)
]

-- The filled cells, and those in front of them.
store_self : (i j : ℕ) (g : Glyph) (b : ℕ → Glyph) → i ≡ j → store i g b j ≡ g
store_self i j g b e = ground arith

store_other : (i j : ℕ) (g : Glyph) (b : ℕ → Glyph) → j < i → store i g b j ≡ b j
store_other i j g b low = ground arith

fill_cells_outside :
    (n i : ℕ) (g : Glyph) (b : ℕ → Glyph) (j : ℕ) → j < i → fill_cells n i g b j ≡ b j
unfolding fill_cells
fill_cells_outside zero i g b j low = refl
fill_cells_outside (suc n) i g b j low =
    fill_cells_outside n (suc i) g (store i g b) j (omega (arith, low)) ∙ store_other i j g b low

fill_cells_inside :
    (n i : ℕ) (g : Glyph) (b : ℕ → Glyph) (j : ℕ) → i ≤ j → j < i + n → fill_cells n i g b j ≡ g
unfolding fill_cells
fill_cells_inside zero i g b j low high = absurd (omega arith)
fill_cells_inside (suc n) i g b j low high = elim (eq-or-lt_of_le low) [
  | inl same ↦
      fill_cells_outside n (suc i) g (store i g b) j (omega (arith, same)) ∙ store_self i j g b same
  | inr below ↦ fill_cells_inside n (suc i) g (store i g b) j below (omega arith)
]

-- What scroll leaves: each row is the one below it before, and the last row is blank.
module _ (k : Console) (some_rows : 0 < k.rows) (size_fits : k.rows * k.cols < 2 ^ 32)
    (rows_fit : k.rows < 2 ^ 32) where
  pub pred_is : u32 (k.rows + 2 ^ 32 - 1) ≡ k.rows - 1
  pred_is = omega arith

  abbrev last : ℕ
  last = (k.rows - 1) * k.cols

  last_is : u32 (u32 (k.rows + 2 ^ 32 - 1) * k.cols) ≡ last
  last_is =
      ap (λ r. u32 (r * k.cols)) pred_is
      ∙ omega (arith, mul-le-mul_right {m = k.rows - 1} {n = k.rows} k.cols (omega arith))

  scrolled_at :
      (j : ℕ) → scrolled k j ≡ fill_cells k.cols last (blank k) (move_cells last k.cols k.buffer) j
  unfolding scrolled
  scrolled_at j = ap (λ l. fill_cells k.cols l (blank k) (move_cells l k.cols k.buffer) j) last_is

  moved_at : (n i : ℕ) (b : ℕ → Glyph) → i < n → move_cells n k.cols b i ≡ b (i + k.cols)
  moved_at n i b low = ground arith

  next_row : (x y : ℕ) → y * k.cols + x + k.cols ≡ suc y * k.cols + x
  next_row x y = omega (arith, suc-mul y k.cols)

  pub scrolled-moved :
      (x y : ℕ) → x < k.cols → suc y < k.rows → scrolled k (y * k.cols + x) ≡ cell k x (suc y)
  scrolled-moved x y lx ly =
      let low = row_above k.cols x y (k.rows - 1) lx (omega (arith, ly)) in
      scrolled_at _
      ∙ fill_cells_outside k.cols last (blank k) (move_cells last k.cols k.buffer) _ low
      ∙ moved_at last _ k.buffer low
      ∙ ap k.buffer (next_row x y)

  pub scrolled-blank : (x : ℕ) → x < k.cols → scrolled k ((k.rows - 1) * k.cols + x) ≡ blank k
  scrolled-blank x lx =
      scrolled_at _ ∙ fill_cells_inside k.cols last (blank k) _ _ (omega arith) (omega (arith, lx))
