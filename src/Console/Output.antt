-- ===== src/Console/Output.antt =====
-- lib/console.c: texts on the console.
use neko_os_c.Prelude.{bind_cong, ℕ, ◌≡◌, refl, ap, ◌∙◌, List, [], ◌∷◌, ok, ◌>>=◌}
use neko_os_c.Console.{Console, console_putchar, console_print, cvprintf}
use neko_os_c.Console.Grid.{IsGrid}
use neko_os_c.Console.Typed.{Typed, console_putchar-Typed}
use neko_os_c.Format.Print.{print}
use neko_os_c.Format.Device.{format_text, vprintf-format_text}

-- One character after the other, each as `Typed` says.
abbrev pub AllTyped : List ℕ → Console → Console → Type 0
AllTyped [] k k' = k ≡ k'
AllTyped (c ∷ t) k k' = (k1 : Console) × (Typed c k k1 × AllTyped t k1 k')

pub print-AllTyped :
    (t : List ℕ) (k : Console)
    → IsGrid k
    → (k' : Console) × ((print console_putchar t k ≡ ok k') × (IsGrid k' × AllTyped t k k'))
unfolding print
print-AllTyped [] k is = (k, (refl, (is, refl)))
print-AllTyped (c ∷ t) k is =
    let (k1, (run, (is1, first))) = console_putchar-Typed c k is in
    let (k', (run', (is', rest))) = print-AllTyped t k1 is1 in
    (k', (ap (λ r. r >>= print console_putchar t) run ∙ run', (is', (k1, (first, rest)))))

print-console_print : (t : List ℕ) (k : Console) → console_print t k ≡ print console_putchar t k
unfolding console_print print
print-console_print [] k = refl
print-console_print (c ∷ t) k = bind_cong (console_putchar c k) (print-console_print t)

-- console_print of a string returns, keeps the cursor in the grid, and types the characters one after
-- the other.
pub console_print-AllTyped :
    (t : List ℕ) (k : Console)
    → IsGrid k
    → (k' : Console) × ((console_print t k ≡ ok k') × (IsGrid k' × AllTyped t k k'))
console_print-AllTyped t k is =
    let (k', (run, rest)) = print-AllTyped t k is in (k', (print-console_print t k ∙ run, rest))

-- cvprintf of a format that has a text returns, keeps the cursor in the grid, and types the characters
-- of that text one after the other.
pub cvprintf-AllTyped :
    (memory : ℕ → ℕ) (fmt args t : List ℕ) (k : Console)
    → IsGrid k
    → format_text memory fmt args ≡ ok t
    → (k' : Console) × ((cvprintf memory fmt args k ≡ ok k') × (IsGrid k' × AllTyped t k k'))
unfolding cvprintf
cvprintf-AllTyped memory fmt args t k is text =
    let (k', (run, rest)) = print-AllTyped t k is in
    (k', (vprintf-format_text console_putchar memory fmt args t k text ∙ run, rest))
