-- ===== src/Gdt/Tests.antt =====
-- The kernel's code segment.
use custom_peach_os.Prelude.{◌≡◌, refl, some, arith}
use custom_peach_os.Gdt.{GdtStructured, Target, encode_bytes, encode_gdt_entry}
use custom_peach_os.Gdt.Decode.{decode_base, decode_limit, encode-decode}

abbrev code_segment : GdtStructured
code_segment = record { base = 0; limit = 0xffff_ffff; type = 0x9a }

abbrev code_target : Target
code_target = record {
  byte0 = 0xff;
  byte1 = 0xff;
  byte2 = 0;
  byte3 = 0;
  byte4 = 0;
  byte5 = 0x9a;
  byte6 = 0xcf;
  byte7 = 0;
}

encode_code_segment : encode_gdt_entry code_segment ≡ some code_target
unfolding encode_gdt_entry encode_bytes
encode_code_segment = refl

encode-decode_example :
    (decode_base code_target ≡ code_segment.base)
    × (decode_limit code_target ≡ code_segment.limit)
    × (code_target.byte5 ≡ code_segment.type)
encode-decode_example =
    encode-decode code_segment code_target (omega arith) (omega arith) encode_code_segment
