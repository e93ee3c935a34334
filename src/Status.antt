-- ===== src/Status.antt =====
-- src/status.h and src/config.h: the error codes, which functions return negated, and the sizes.
use custom_peach_os.Prelude.{ℕ}
use custom_peach_os.Prelude.Int.{ℤ, pos, neg}

abbrev pub all_ok : ℤ
all_ok = pos 0

abbrev pub eio : ℤ
eio = neg 1

abbrev pub einvarg : ℤ
einvarg = neg 2

abbrev pub enomem : ℤ
enomem = neg 3

abbrev pub ebadpath : ℤ
ebadpath = neg 4

abbrev pub efsnotus : ℤ
efsnotus = neg 5

abbrev pub erdonly : ℤ
erdonly = neg 6

abbrev pub eunimp : ℤ
eunimp = neg 7

abbrev pub eistkn : ℤ
eistkn = neg 8

abbrev pub einformat : ℤ
einformat = neg 9

abbrev pub max_path : ℕ
max_path = 108

abbrev pub max_file_descriptors : ℕ
max_file_descriptors = 512

abbrev pub max_filesystems : ℕ
max_filesystems = 12

abbrev pub max_program_allocations : ℕ
max_program_allocations = 1024

abbrev pub max_processes : ℕ
max_processes = 12

abbrev pub sector_size : ℕ
sector_size = 512
