-- ===== src/Multiboot/Parse.antt =====
-- mb2_parse of kernel/multiboot2.c: each tag is logged, and the frame buffer's is set up.
use neko_os_c.Prelude.{
  ℕ, zero, suc, ◌+◌, ◌-◌, ◌/◌, ◌^◌, ◌≤◌, ◌≡◌, ◌≢◌, ap, ◌∙◌, Bool, true, false, ◌==◌, ltb,
  if◌then◌else◌, u32, u64, Run, ok, out_of_fuel, fault, ◌>>=◌, bind_cong, List, [], ◌∷◌, ◌++◌,
  arith,
}
use neko_os_c.Framebuffer.{Fb}
use neko_os_c.Framebuffer.Setup.{fb_init}
use neko_os_c.Mem.{Bytes, word32, word64}
use neko_os_c.Multiboot.Tags.{
  tag_type, tag_size, next_tag, first_tag, total_size, mb2_tag_end, mb2_tag_cmdline,
  mb2_tag_bootloader, mb2_tag_mmap, mb2_tag_framebuffer, mb2_tag_acpi_v1, mb2_tag_acpi_v2, Listed,
  ended, followed, WithTags, Listed-le,
}
use neko_os_c.Paging.{Pages}

-- The lines of the log, by the arguments of each; a string is the address of its bytes.
pub data Line : Type 0 where
  cmdline_line : (string : ℕ) → Line
  bootloader_line : (string : ℕ) → Line
  mmap_line : (count : ℕ) → Line
  entry_line : (start stop type : ℕ) → Line
  rsdt_line : (address : ℕ) → Line
  xsdt_line : (address : ℕ) → Line
  framebuffer_line : (width height bpp addr : ℕ) → Line

pub record Parsed : Type 0 where
  pub fb : Fb
  pub pages : Pages
  pub logged : List Line

abbrev pub log_line : Line → Parsed → Parsed
log_line l s = record s { logged = s.logged ++ (l ∷ []) }

-- `count` is an int: the quotient is truncated to 32 bits and read with its sign, and a loop to a
-- negative count has no rounds.
abbrev pub mmap_count : Bytes → (tag : ℕ) → ℕ
mmap_count m tag = u32 (u64 (tag_size m tag + 2 ^ 64 - 16) / word32 m (tag + 8))

abbrev pub rounds_of : (count : ℕ) → ℕ
rounds_of count = if ltb count (2 ^ 31) then count else 0

-- The entries are those of an array of mb2_mmap_entry_t, of 24 bytes.
unfoldable pub log_entries : (n e : ℕ) → Bytes → Parsed → Parsed
log_entries zero e m s = s
log_entries (suc n) e m s =
    log_entries n (e + 24) m (
      log_line (entry_line (word64 m e) (u64 (word64 m e + word64 m (e + 8))) (word32 m (e + 16)))
        s)

-- A division by the entry size 0 is a fault.
unfoldable pub parse_mmap : Bytes → (tag : ℕ) → Parsed → Run Parsed
unfolding log_entries
parse_mmap m tag s =
    if word32 m (tag + 8) == 0
    then fault
    else ok (
        log_entries (rounds_of (mmap_count m tag)) (tag + 16) m
          (log_line (mmap_line (mmap_count m tag)) s))

unfoldable pub parse_framebuffer : Bytes → (tag : ℕ) → Parsed → Run Parsed
unfolding fb_init
parse_framebuffer m tag s =
    let line =
      framebuffer_line (word32 m (tag + 20)) (word32 m (tag + 24)) (m (tag + 28))
        (word64 m (tag + 8)) in
    fb_init m tag s.fb s.pages >>= λ (fb, pages).
    ok (record s { fb = fb; pages = pages; logged = s.logged ++ (line ∷ []) })

-- The switch of mb2_parse. The RSDT's address stands at 16 in the root pointer, the XSDT's at 24.
unfoldable pub parse_tag : Bytes → (tag : ℕ) → Parsed → Run Parsed
unfolding parse_mmap parse_framebuffer
parse_tag m tag s =
    let type = tag_type m tag in
    if type == mb2_tag_cmdline
    then ok (log_line (cmdline_line (tag + 8)) s)
    else if type == mb2_tag_bootloader
    then ok (log_line (bootloader_line (tag + 8)) s)
    else if type == mb2_tag_mmap
    then parse_mmap m tag s
    else if type == mb2_tag_acpi_v1
    then ok (log_line (rsdt_line (word32 m (tag + 8 + 16))) s)
    else if type == mb2_tag_acpi_v2
    then ok (log_line (xsdt_line (word64 m (tag + 8 + 24))) s)
    else if type == mb2_tag_framebuffer
    then parse_framebuffer m tag s
    else ok s

-- `fuel` bounds the rounds of the loop.
unfoldable pub parse_from : (fuel tag : ℕ) → Bytes → Parsed → Run Parsed
unfolding parse_tag
parse_from zero tag m s = if tag_type m tag == mb2_tag_end then ok s else out_of_fuel
parse_from (suc fuel) tag m s = elim (tag_type m tag == mb2_tag_end) [
  | true ↦ ok s
  | false ↦ parse_tag m tag s >>= parse_from fuel (next_tag m tag) m
]

unfoldable pub mb2_parse : Bytes → (info : ℕ) → Parsed → Run Parsed
unfolding parse_from
mb2_parse m info s = parse_from (total_size m info) (first_tag info) m s

-- The switch for each tag of a list, as far as none of them fails.
abbrev pub parse_each : Bytes → List ℕ → Parsed → Run Parsed
parse_each m [] s = ok s
parse_each m (t ∷ ts) s = parse_tag m t s >>= parse_each m ts

parse_ended :
    (fuel tag : ℕ) (m : Bytes) (s : Parsed)
    → tag_type m tag ≡ mb2_tag_end
    → parse_from fuel tag m s ≡ ok s
unfolding parse_from
parse_ended zero tag m s last = ground (arith, last)
parse_ended (suc fuel) tag m s last = ground (arith, last)

parse_more :
    (fuel tag : ℕ) (m : Bytes) (s : Parsed)
    → tag_type m tag ≢ mb2_tag_end
    → parse_from (suc fuel) tag m s ≡ (parse_tag m tag s >>= parse_from fuel (next_tag m tag) m)
unfolding parse_from
parse_more fuel tag m s more =
    let test : (tag_type m tag == mb2_tag_end) ≡ false = ground (arith, more) in
    let body : Bool → Run Parsed = λ b. elim b [
      | true ↦ ok s
      | false ↦ parse_tag m tag s >>= parse_from fuel (next_tag m tag) m
    ] in
    ap body test

parse-Listed :
    (m : Bytes) (fin fuel tag : ℕ) (ts : List ℕ) (s : Parsed)
    → Listed m fin tag ts
    → fin ≤ tag + fuel
    → parse_from fuel tag m s ≡ parse_each m ts s
parse-Listed m fin fuel tag [] s (ended last) enough = parse_ended fuel tag m s last
parse-Listed m fin zero tag _ s (followed _ ts more on rest) enough =
    absurd (omega (arith, Listed-le m fin _ ts rest, on))
parse-Listed m fin (suc fuel) tag _ s (followed _ ts more on rest) enough =
    parse_more fuel tag m s more
    ∙ bind_cong (parse_tag m tag s)
        (λ r. parse-Listed m fin fuel (next_tag m tag) ts r rest (omega (arith, on)))

-- mb2_parse, for tags that are not empty and end within the stated size, handles each tag once, in their
-- order, and ends after the last one or where a tag fails.
pub mb2_parse-parse_each :
    (m : Bytes) (info : ℕ) (ts : List ℕ) (s : Parsed)
    → WithTags m info ts
    → mb2_parse m info s ≡ parse_each m ts s
unfolding mb2_parse
mb2_parse-parse_each m info ts s tags =
    parse-Listed m tags.fin (total_size m info) (first_tag info) ts s tags.listed
      (omega (arith, tags.inside))
