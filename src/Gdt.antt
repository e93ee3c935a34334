-- ===== src/Gdt.antt =====
-- src/gdt/gdt.c: the eight bytes of a segment descriptor. `none` is a panic.
pub mod Decode
mod Tests
use custom_peach_os.Prelude.{
  ℕ, ◌/◌, ◌^◌, not, ◌&&◌, Option, none, some, List, [], ◌∷◌, ltb, ◌==◌, if◌then◌else◌, bit_and,
  bit_or,
}

pub record GdtStructured : Type 0 where
  pub base : ℕ
  pub limit : ℕ
  pub type : ℕ

-- `target[0]` to `target[7]`.
pub record Target : Type 0 where
  pub byte0 : ℕ
  pub byte1 : ℕ
  pub byte2 : ℕ
  pub byte3 : ℕ
  pub byte4 : ℕ
  pub byte5 : ℕ
  pub byte6 : ℕ
  pub byte7 : ℕ

-- The bytes for a limit that is scaled already, and the flags of byte 6.
unfoldable pub encode_bytes : ℕ → ℕ → GdtStructured → Target
encode_bytes limit flags source = record {
  byte0 = bit_and limit 0xff;
  byte1 = bit_and (limit / 2 ^ 8) 0xff;
  byte2 = bit_and source.base 0xff;
  byte3 = bit_and (source.base / 2 ^ 8) 0xff;
  byte4 = bit_and (source.base / 2 ^ 16) 0xff;
  byte5 = source.type;
  byte6 = bit_or flags (bit_and (limit / 2 ^ 16) 0x0f);
  byte7 = bit_and (source.base / 2 ^ 24) 0xff;
}

unfoldable pub encode_gdt_entry : GdtStructured → Option Target
unfolding encode_bytes
encode_gdt_entry source =
    if ltb 65536 source.limit && not (bit_and source.limit 0xfff == 0xfff)
    then none
    else (if ltb 65536 source.limit
        then some (encode_bytes (source.limit / 2 ^ 12) 0xc0 source)
        else some (encode_bytes source.limit 0x40 source))

-- The entries in order, up to a panic.
unfoldable pub gdt_structured_to_gdt : List GdtStructured → Option (List Target)
gdt_structured_to_gdt [] = some []
gdt_structured_to_gdt (source ∷ rest) = elim (encode_gdt_entry source) [
  | none ↦ none
  | some target ↦ elim (gdt_structured_to_gdt rest) [
    | none ↦ none
    | some targets ↦ some (target ∷ targets)
  ]
]
