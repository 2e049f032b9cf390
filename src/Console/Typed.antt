-- ===== src/Console/Typed.antt =====
-- lib/console.c: what a character does to the grid and the cursor.
use neko_os_c.Prelude.{
  ℕ, suc, ◌+◌, ◌-◌, ◌*◌, ◌^◌, ◌≤◌, ◌<◌, ◌≡◌, refl, ap, sym, ◌∙◌, Bool, true, ◌&&◌, ◌||◌, not, ◌==◌,
  ltb, if◌then◌else◌, u32, arith, inl, inr, ◌⊎◌, ok,
}
use neko_os_c.Console.{
  Console, Glyph, scroll, scrolled, blank, place_char, show_char, wrap_down, console_putchar,
}
use neko_os_c.Console.Grid.{IsGrid, cell, same_index, index_fits, scrolled-moved, scrolled-blank}

-- The cursor behind a character, before the grid moves up.
abbrev pub next_x : (c : ℕ) → Console → ℕ
next_x c k =
    if c == 10 || c == 13
    then 0
    else if c == 8
    then k.cursor_x - 1
    else if ltb (k.cursor_x + 1) k.cols
    then k.cursor_x + 1
    else 0

abbrev pub next_y : (c : ℕ) → Console → ℕ
next_y c k =
    if c == 10
    then k.cursor_y + 1
    else if c == 13 || c == 8
    then k.cursor_y
    else if ltb (k.cursor_x + 1) k.cols
    then k.cursor_y
    else k.cursor_y + 1

abbrev pub is_shown : ℕ → Bool
is_shown c = not (c == 10 || c == 13 || c == 8)

-- The grid with a shown character at the cursor.
abbrev pub typed : (c : ℕ) → Console → (x y : ℕ) → Glyph
typed c k x y =
    if is_shown c && (y == k.cursor_y && x == k.cursor_x)
    then record { c = c; fg = k.fg_color; bg = k.bg_color }
    else cell k x y

-- What stays the same.
abbrev pub SameSize : Console → Console → Type 0
SameSize k k' =
    (k'.cols ≡ k.cols)
    × ((k'.rows ≡ k.rows)
        × ((k'.has_buffer ≡ k.has_buffer)
            × ((k'.fg_color ≡ k.fg_color)
                × ((k'.bg_color ≡ k.bg_color) × (k'.initialized ≡ k.initialized)))))

-- `k'` is `k` behind the character `c`: the grid has moved up if the cursor left it.
pub record Typed (c : ℕ) (k k' : Console) : Type 0 where
  pub same_size : SameSize k k'
  pub at_x : k'.cursor_x ≡ next_x c k
  pub at_y : k'.cursor_y ≡ (if ltb (next_y c k) k.rows then next_y c k else k.rows - 1)
  pub kept : next_y c k < k.rows → (x y : ℕ) → x < k.cols → y < k.rows → cell k' x y ≡ typed c k x y
  pub moved :
      k.rows ≤ next_y c k
      → (x y : ℕ) → x < k.cols
      → suc y < k.rows
      → cell k' x y ≡ typed c k x (suc y)
  pub emptied : k.rows ≤ next_y c k → (x : ℕ) → x < k.cols → cell k' x (k.rows - 1) ≡ blank k

inside_or_below : (y n : ℕ) → (y < n) ⊎ (n ≤ y)
inside_or_below y n = ground arith

same_less : {a a' b b' : ℕ} → a' ≡ a → b' ≡ b → a < b → a' < b'
same_less e e' l = omega arith

same_less_eq : {a a' b b' : ℕ} → a' ≡ a → b' ≡ b → a ≤ b → a' ≤ b'
same_less_eq e e' l = omega arith

-- The grid of a console of the size of another.
resized :
    (k p : Console) → IsGrid k → SameSize k p → p.cursor_x < k.cols → p.cursor_y < k.rows → IsGrid p
resized k p is (cols, (rows, (buffer, colors))) lx ly = record {
  in_row = same_less refl cols lx;
  in_column = same_less refl rows ly;
  size_fits = same_less (ap (λ r. r * p.cols) rows ∙ ap (λ c. k.rows * c) cols) refl is.size_fits;
  rows_fit = same_less rows refl is.rows_fit;
  cols_fit = same_less cols refl is.cols_fit;
  allocated = buffer ∙ is.allocated;
}

module _ (c : ℕ) (k : Console) (is : IsGrid k) where
  cursor_index : u32 (u32 (k.cursor_y * k.cols) + k.cursor_x) ≡ k.cursor_y * k.cols + k.cursor_x
  cursor_index =
      omega (arith, index_fits k k.cursor_x k.cursor_y is.in_row is.in_column, is.size_fits)

  place_size : SameSize k (place_char c k)
  unfolding place_char show_char
  place_size = ground arith

  place_x : (place_char c k).cursor_x ≡ next_x c k
  unfolding place_char show_char
  place_x = ground (arith, is.in_row, is.cols_fit)

  place_y : (place_char c k).cursor_y ≡ next_y c k
  unfolding place_char show_char
  place_y = ground (arith, is.in_row, is.cols_fit, is.in_column, is.rows_fit)

  place_cell : (x y : ℕ) → x < k.cols → y < k.rows → cell (place_char c k) x y ≡ typed c k x y
  unfolding place_char show_char
  place_cell x y lx ly =
      ground (
        arith,
        cursor_index,
        same_index k.cols k.cursor_x k.cursor_y x y is.in_row lx,
        is.allocated,
      )

  stays : next_y c k < k.rows → (place_char c k).cursor_y < (place_char c k).rows
  stays inside = same_less place_y place_size.1.0 inside

  leaves : k.rows ≤ next_y c k → (place_char c k).rows ≤ (place_char c k).cursor_y
  leaves below = same_less_eq place_size.1.0 place_y below

  has_one : (place_char c k).has_buffer ≡ true
  has_one = place_size.1.1.0 ∙ is.allocated

  next_in_row : next_x c k < k.cols
  next_in_row = ground (arith, is.in_row)

wrap_keep : (p : Console) → p.cursor_y < p.rows → wrap_down p ≡ ok p
unfolding wrap_down
wrap_keep p inside = ground arith

abbrev lifted : Console → Console
lifted p = record (scroll p) { cursor_y = u32 (p.rows + 2 ^ 32 - 1) }

wrap_lift : (p : Console) → p.rows ≤ p.cursor_y → p.has_buffer ≡ true → wrap_down p ≡ ok (lifted p)
unfolding wrap_down
wrap_lift p below some_buffer = ground arith

cell-lifted : (p : Console) (x y : ℕ) → cell (lifted p) x y ≡ scrolled p (y * p.cols + x)
unfolding scroll
cell-lifted p x y = refl

lifted_same : (p : Console) → SameSize p (lifted p) × ((lifted p).cursor_x ≡ p.cursor_x)
unfolding scroll
lifted_same p = ((refl, (refl, (refl, (refl, (refl, refl))))), refl)

SameSize-trans : (k p q : Console) → SameSize k p → SameSize p q → SameSize k q
SameSize-trans k p q (a, (b, (d, (e, (f, g))))) (a', (b', (d', (e', (f', g'))))) =
    (a' ∙ a, (b' ∙ b, (d' ∙ d, (e' ∙ e, (f' ∙ f, g' ∙ g)))))

picks_next : (y n : ℕ) → y < n → y ≡ (if ltb y n then y else n - 1)
picks_next y n l = ground arith

picks_last : (y n : ℕ) → n ≤ y → n - 1 ≡ (if ltb y n then y else n - 1)
picks_last y n l = ground arith

module _ (c : ℕ) (k : Console) (is : IsGrid k) where
  keeps : next_y c k < k.rows → IsGrid (place_char c k) × Typed c k (place_char c k)
  keeps inside = (
    resized k (place_char c k) is (place_size c k is)
        (same_less (place_x c k is) refl (next_in_row c k is))
        (same_less (place_y c k is) refl inside),
    record {
      same_size = place_size c k is;
      at_x = place_x c k is;
      at_y = place_y c k is ∙ picks_next (next_y c k) k.rows inside;
      kept = λ l. place_cell c k is;
      moved = λ l. absurd (omega arith);
      emptied = λ l. absurd (omega arith);
    },
  )

module _ (c : ℕ) (k p : Console) (is : IsGrid k) (same : SameSize k p)
    (px : p.cursor_x ≡ next_x c k)
    (pc : (x y : ℕ) → x < k.cols → y < k.rows → cell p x y ≡ typed c k x y)
    (below : k.rows ≤ next_y c k) where
  some_rows : 0 < k.rows
  some_rows = omega (arith, is.in_column)

  p_size_fits : p.rows * p.cols < 2 ^ 32
  p_size_fits =
      same_less (ap (λ r. r * p.cols) same.1.0 ∙ ap (λ n. k.rows * n) same.0) refl is.size_fits

  lifted_y : (lifted p).cursor_y ≡ k.rows - 1
  lifted_y = omega (arith, same.1.0, is.rows_fit, some_rows)

  lifted_size : SameSize k (lifted p)
  lifted_size = SameSize-trans k p (lifted p) same (lifted_same p).0

  lifted_x : (lifted p).cursor_x ≡ next_x c k
  lifted_x = (lifted_same p).1 ∙ px

  p_some : 0 < p.rows
  p_some = same_less refl same.1.0 some_rows

  p_fits : p.rows < 2 ^ 32
  p_fits = same_less same.1.0 refl is.rows_fit

  lifted_moved : (x y : ℕ) → x < k.cols → suc y < k.rows → cell (lifted p) x y ≡ typed c k x (suc y)
  lifted_moved x y lx ly =
      cell-lifted p x y
      ∙ scrolled-moved p p_some p_size_fits p_fits x y (same_less refl same.0 lx)
          (same_less refl same.1.0 ly)
      ∙ pc x (suc y) lx ly

  same_blank : blank p ≡ blank k
  same_blank = ground (arith, same.1.1.1.0, same.1.1.1.1.0)

  lifted-blank : (x : ℕ) → x < k.cols → cell (lifted p) x (k.rows - 1) ≡ blank k
  lifted-blank x lx =
      cell-lifted p x (k.rows - 1)
      ∙ ap (λ r. scrolled p ((r - 1) * p.cols + x)) (sym same.1.0)
      ∙ scrolled-blank p p_some p_size_fits p_fits x (same_less refl same.0 lx)
      ∙ same_blank

  lift_case : next_x c k < k.cols → IsGrid (lifted p) × Typed c k (lifted p)
  lift_case inside = (
    resized k (lifted p) is lifted_size (same_less lifted_x refl inside)
        (same_less lifted_y refl (omega (arith, some_rows))),
    record {
      same_size = lifted_size;
      at_x = lifted_x;
      at_y = lifted_y ∙ picks_last (next_y c k) k.rows below;
      kept = λ l. absurd (omega arith);
      moved = λ l. lifted_moved;
      emptied = λ l. lifted-blank;
    },
  )

lifts :
    (c : ℕ) (k : Console) (is : IsGrid k)
    → k.rows ≤ next_y c k
    → IsGrid (lifted (place_char c k)) × Typed c k (lifted (place_char c k))
lifts c k is below =
    lift_case c k (place_char c k) is (place_size c k is) (place_x c k is) (place_cell c k is) below
      (next_in_row c k is)

-- The character is placed on the grid and the cursor moves on: to the next column, back, or to the
-- next row; at the end of the last row the grid moves up by one row and leaves a blank one. The cursor
-- stays in the grid.
pub console_putchar-Typed :
    (c : ℕ) (k : Console)
    → IsGrid k
    → (k' : Console) × ((console_putchar c k ≡ ok k') × (IsGrid k' × Typed c k k'))
unfolding console_putchar
console_putchar-Typed c k is = elim (inside_or_below (next_y c k) k.rows) [
  | inl inside ↦ (place_char c k, (wrap_keep _ (stays c k is inside), keeps c k is inside))
  | inr below ↦ (
    lifted (place_char c k),
    (wrap_lift _ (leaves c k is below) (has_one c k is), lifts c k is below),
  )
]
