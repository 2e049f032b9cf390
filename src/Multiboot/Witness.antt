-- ===== src/Multiboot/Witness.antt =====
-- Tests of kernel/multiboot2.c, and its theorems at concrete inputs.
use neko_os_c.Prelude.{◌-◌, ◌≡◌, refl, arith, ok, [], ◌∷◌, get_or}
use neko_os_c.Mem.{Bytes}
use neko_os_c.Multiboot.Rsdp.{get_acpi_rsdp, rsdp_from, found_in, get_acpi_rsdp-found_in}
use neko_os_c.Multiboot.Tags.{WithTags, ended, followed}

-- At 1000, a command line, a root pointer of ACPI 1.0, and the end tag.
abbrev info_bytes : Bytes
info_bytes a =
    get_or
      (56 ∷ 0 ∷ 0 ∷ 0 ∷ 0 ∷ 0 ∷ 0 ∷ 0 ∷ 1 ∷ 0 ∷ 0 ∷ 0 ∷ 9 ∷ 0 ∷ 0 ∷ 0 ∷ 0 ∷ 0 ∷ 0 ∷ 0 ∷ 0 ∷ 0 ∷ 0
        ∷ 0 ∷ 14 ∷ 0 ∷ 0 ∷ 0 ∷ 24 ∷ 0 ∷ 0 ∷ 0 ∷ 82 ∷ 83 ∷ 68 ∷ 32 ∷ 80 ∷ 84 ∷ 82 ∷ 32 ∷ [])
      (a - 1000) 0

two_tags : WithTags info_bytes 1000 (1008 ∷ 1024 ∷ [])
two_tags = record {
  fin = 1048;
  inside = omega arith;
  listed =
      followed 1008 _ (λ e. absurd (omega (arith, e))) (omega arith)
        (followed 1024 _ (λ e. absurd (omega (arith, e))) (omega arith) (ended refl));
}

test_rsdp :
    get_acpi_rsdp info_bytes 1000
    ≡ ok (record { rsdp = 1032; logged = (82 ∷ 83 ∷ 68 ∷ 32 ∷ 80 ∷ 84 ∷ 82 ∷ 32 ∷ []) ∷ [] })
unfolding get_acpi_rsdp rsdp_from
test_rsdp = refl

get_acpi_rsdp-found_in_example :
    get_acpi_rsdp info_bytes 1000
    ≡ ok (found_in info_bytes (1008 ∷ 1024 ∷ []) (record { rsdp = 0; logged = [] }))
get_acpi_rsdp-found_in_example = get_acpi_rsdp-found_in info_bytes 1000 (1008 ∷ 1024 ∷ []) two_tags
