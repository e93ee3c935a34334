-- ===== src/Gdt/Decode.antt =====
-- What the processor reads from an encoded descriptor.
use custom_peach_os.Prelude.{
  ℕ, ◌+◌, ◌*◌, ◌/◌, ◌%◌, ◌^◌, ◌<◌, ◌≡◌, ◌≢◌, refl, ◌⊎◌, inl, inr, ap, ◌∙◌, none, some, List, [],
  ◌∷◌, arith, ltb, Option-cases, leb, ◌==◌, Bool-cases, if◌then◌else◌, bit_and, bit_or,
}
use mathlib.Core.Path.{subst}
use custom_peach_os.Prelude.Bits.{and_low, or_fields, and_nibble}
use custom_peach_os.Gdt.{
  GdtStructured, Target, encode_bytes, encode_gdt_entry, gdt_structured_to_gdt,
}

abbrev pub decode_base : Target → ℕ
decode_base t = t.byte2 + t.byte3 * 2 ^ 8 + t.byte4 * 2 ^ 16 + t.byte7 * 2 ^ 24

-- The limit counts pages of 4096 bytes if the granularity bit is set.
abbrev pub decode_limit : Target → ℕ
decode_limit t =
    let raw = t.byte0 + t.byte1 * 2 ^ 8 + t.byte6 % 16 * 2 ^ 16 in
    if leb 128 t.byte6 then raw * 4096 + 4095 else raw

and_byte : (a : ℕ) → bit_and a 0xff ≡ a % 256
and_byte a =
    ap (λ (t : ℕ). bit_and t 0xff) {x = a} {y = a / 256 * 2 ^ 8 + a % 256} (omega arith)
    ∙ and_low 8 (a / 256) (a % 256) (omega arith)

and_page : (a : ℕ) → bit_and a 0xfff ≡ a % 4096
and_page a =
    ap (λ (t : ℕ). bit_and t 0xfff) {x = a} {y = a / 4096 * 2 ^ 12 + a % 4096} (omega arith)
    ∙ and_low 12 (a / 4096) (a % 4096) (omega arith)

or_nibble : (h a : ℕ) → bit_or (h * 16) (bit_and a 0x0f) ≡ h * 16 + a % 16
or_nibble h a = ap (bit_or (h * 16)) (and_nibble a) ∙ or_fields 4 h (a % 16) (omega arith)

encode_bytes-decode :
    (limit h : ℕ) (source : GdtStructured)
    → source.base < 2 ^ 32
    → limit < 2 ^ 20
    → (h ≡ 4) ⊎ (h ≡ 12)
    → (decode_base (encode_bytes limit (h * 16) source) ≡ source.base)
      × (decode_limit (encode_bytes limit (h * 16) source)
          ≡ (if h == 12 then limit * 4096 + 4095 else limit))
      × ((encode_bytes limit (h * 16) source).byte5 ≡ source.type)
unfolding encode_bytes
encode_bytes-decode limit h source small fits flags = ground (
  arith,
  and_byte limit,
  and_byte (limit / 2 ^ 8),
  and_byte source.base,
  and_byte (source.base / 2 ^ 8),
  and_byte (source.base / 2 ^ 16),
  and_byte (source.base / 2 ^ 24),
  or_nibble h (limit / 2 ^ 16),
)

-- If a descriptor with a 32-bit base and limit is encoded without a panic, the processor reads from
-- the bytes its base, its limit and its type.
pub encode-decode :
    (source : GdtStructured) (t : Target)
    → source.base < 2 ^ 32
    → source.limit < 2 ^ 32
    → encode_gdt_entry source ≡ some t
    → (decode_base t ≡ source.base) × (decode_limit t ≡ source.limit) × (t.byte5 ≡ source.type)
unfolding encode_gdt_entry
encode-decode source t small lim e = elim (Bool-cases (ltb 65536 source.limit)) [
  | inl large ↦ ground (
    arith,
    and_page source.limit,
    encode_bytes-decode (source.limit / 4096) 12 source small (omega arith) (inr refl),
  )
  | inr fits ↦
      ground (arith, encode_bytes-decode source.limit 4 source small (ground arith) (inl refl))
]

-- The limits that are refused are those over 65536 that do not fill their last page.
pub encode-none :
    (source : GdtStructured)
    → encode_gdt_entry source ≡ none
    → (65536 < source.limit) × (source.limit % 4096 ≢ 4095)
unfolding encode_gdt_entry
encode-none source e = ground (arith, and_page source.limit)

-- What the processor reads from the descriptors is what they were made from.
abbrev pub AllRead : List GdtStructured → List Target → Type 0
AllRead [] [] = Unit
AllRead [] (t ∷ ts) = ⊥
AllRead (source ∷ sources) [] = ⊥
AllRead (source ∷ sources) (t ∷ ts) =
    ((decode_base t ≡ source.base) × (decode_limit t ≡ source.limit) × (t.byte5 ≡ source.type))
    × AllRead sources ts

abbrev pub AllFit : List GdtStructured → Type 0
AllFit [] = Unit
AllFit (source ∷ sources) = ((source.base < 2 ^ 32) × (source.limit < 2 ^ 32)) × AllFit sources

-- Descriptors that fit and are encoded without a panic are all read as they were written.
pub gdt_structured_to_gdt-AllRead :
    (sources : List GdtStructured) (targets : List Target)
    → AllFit sources
    → gdt_structured_to_gdt sources ≡ some targets
    → AllRead sources targets
unfolding gdt_structured_to_gdt
gdt_structured_to_gdt-AllRead [] [] fit e = tt
gdt_structured_to_gdt-AllRead [] (t ∷ ts) fit e = ground (arith, e)
gdt_structured_to_gdt-AllRead (source ∷ sources) targets fit e =
    elim (Option-cases (encode_gdt_entry source)) [
      | inl panic ↦ absurd (ground (arith, e, panic))
      | inr (t, one) ↦ elim (Option-cases (gdt_structured_to_gdt sources)) [
        | inl panic ↦ absurd (ground (arith, e, one, panic))
        | inr (ts, more) ↦
            subst (AllRead (source ∷ sources)) {x = t ∷ ts} {y = targets}
              (ground (arith, e, one, more))
              (
                encode-decode source t fit.0.0 fit.0.1 one,
                gdt_structured_to_gdt-AllRead sources ts fit.1 more,
              )
      ]
    ]
