-- ===== src/Acpi.antt =====
-- drivers/acpi.c: the tables of ACPI, from the root pointer on.
pub mod Tables
mod Witness
use neko_os_c.Prelude.{
  ℕ, zero, suc, ◌+◌, ◌-◌, ◌*◌, ◌/◌, ◌%◌, ◌^◌, Bool, true, false, ◌==◌, ltb, leb, if◌then◌else◌, u32,
  u64, Run, ok, panic, ◌>>=◌, List, [], ◌∷◌, ◌++◌,
}
use neko_os_c.Hpet.{Hpet, hpet_parse}
use neko_os_c.Madt.{Madt, madt_parse}
use neko_os_c.Mem.{Bytes, Sign, minus, same, plus, memcmp, word32, word64}
use neko_os_c.Multiboot.Rsdp.{get_acpi_rsdp}

-- The lines of the log, by the arguments of each.
pub data Line : Type 0 where
  using_xsdt_line : (address : ℕ) → Line
  using_rsdt_line : (address : ℕ) → Line
  parsing_rsdt_line : Line
  parsing_xsdt_line : Line
  found_line : (table : ℕ) → Line
  apic_line : Line
  hpet_line : Line

-- The state of the drivers that the tables are passed to, and the lines logged; `rsdp_bytes` are those of
-- get_acpi_rsdp.
pub record Acpi : Type 0 where
  pub madt : Madt
  pub hpet : Hpet
  pub rsdp_bytes : List (List ℕ)
  pub logged : List Line

-- Where the strings "APIC" and "HPET" of the program stand.
pub record Literals : Type 0 where
  pub apic : ℕ
  pub hpet : ℕ

abbrev pub log_line : Line → Acpi → Acpi
log_line l s = record s { logged = s.logged ++ (l ∷ []) }

abbrev pub is_same : Sign → Bool
is_same minus = false
is_same same = true
is_same plus = false

unfoldable pub pass_apic : Literals → Bytes → (table : ℕ) → Acpi → Run Acpi
unfolding memcmp
pass_apic lits m table s =
    if is_same (memcmp table lits.apic 4 m)
    then (madt_parse m table s.madt >>= λ madt. ok (record (log_line apic_line s) { madt = madt }))
    else ok s

unfoldable pub pass_hpet : Literals → Bytes → (table : ℕ) → Acpi → Run Acpi
unfolding memcmp
pass_hpet lits m table s =
    if is_same (memcmp table lits.hpet 4 m)
    then ok (record (log_line hpet_line s) { hpet = hpet_parse table s.hpet })
    else ok s

-- The body of the loop behind the address of the table.
unfoldable pub handle_table : Literals → Bytes → (table : ℕ) → Acpi → Run Acpi
unfolding pass_apic pass_hpet
handle_table lits m table s =
    pass_apic lits m table (log_line (found_line table) s) >>= pass_hpet lits m table

-- An entry is an address of 32 bits in the RSDT, and of 64 bits in the XSDT.
abbrev pub entry_address : Bytes → (entries i entry_size : ℕ) → ℕ
entry_address m entries i entry_size =
    if entry_size == 4 then word32 m (entries + u32 (i * 4)) else word64 m (entries + u32 (i * 8))

-- `n` more rounds from `i` on.
unfoldable pub tables_from :
    (n i : ℕ) → Literals → Bytes → (entries entry_size : ℕ) → Acpi → Run Acpi
unfolding handle_table
tables_from zero i lits m entries entry_size s = ok s
tables_from (suc n) i lits m entries entry_size s =
    handle_table lits m (entry_address m entries i entry_size) s
    >>= tables_from n (suc i) lits m entries entry_size

-- sizeof(acpi_sdt_header_t); `length` is its second field.
abbrev pub header_bytes : ℕ
header_bytes = 36

abbrev pub table_count : Bytes → (header entry_size : ℕ) → ℕ
table_count m header entry_size =
    u32 (u64 (word32 m (header + 4) + 2 ^ 64 - header_bytes) / entry_size)

unfoldable pub acpi_parse_tables : Literals → Bytes → (header entry_size : ℕ) → Acpi → Run Acpi
unfolding tables_from
acpi_parse_tables lits m header entry_size s =
    tables_from (table_count m header entry_size) 0 lits m (header + header_bytes) entry_size s

unfoldable pub acpi_parse_rsdt : Literals → Bytes → ℕ → Acpi → Run Acpi
unfolding acpi_parse_tables
acpi_parse_rsdt lits m rsdt s = acpi_parse_tables lits m rsdt 4 (log_line parsing_rsdt_line s)

unfoldable pub acpi_parse_xsdt : Literals → Bytes → ℕ → Acpi → Run Acpi
unfolding acpi_parse_tables
acpi_parse_xsdt lits m xsdt s = acpi_parse_tables lits m xsdt 8 (log_line parsing_xsdt_line s)

-- The part of acpi_init behind the search. The revision stands at 15 in the root pointer, the address of
-- the RSDT at 16, and that of the XSDT at 24.
unfoldable pub use_rsdp : Literals → Bytes → (rsdp : ℕ) → Acpi → Run Acpi
unfolding acpi_parse_rsdt acpi_parse_xsdt
use_rsdp lits m rsdp s =
    let rsdt = word32 m (rsdp + 16) in
    let xsdt = word64 m (rsdp + 24) in
    if rsdp == 0
    then panic
    else if leb 2 (m (rsdp + 15))
    then (if xsdt == 0
        then panic
        else acpi_parse_xsdt lits m xsdt (log_line (using_xsdt_line xsdt) s))
    else if rsdt == 0
    then panic
    else acpi_parse_rsdt lits m rsdt (log_line (using_rsdt_line rsdt) s)

unfoldable pub acpi_init : Literals → Bytes → (info : ℕ) → Acpi → Run Acpi
unfolding use_rsdp
acpi_init lits m info s = get_acpi_rsdp m info >>= λ found.
    use_rsdp lits m found.rsdp (record s { rsdp_bytes = s.rsdp_bytes ++ found.logged })
