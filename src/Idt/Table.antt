-- ===== src/Idt/Table.antt =====
-- What the processor reads from the table that `idt_init` loads.
use custom_peach_os.Prelude.{
  ℕ, zero, suc, ◌+◌, ◌*◌, ◌/◌, ◌%◌, ◌^◌, ◌≤◌, ◌<◌, ◌≡◌, refl, ap, ◌∙◌, ◌&&◌, List, arith, leb, ltb,
  ◌==◌, ==_iff, Bool-cases, inl, inr, if◌then◌else◌, bit_and, length, get_or, length-set,
  get_or-set_self, get_or-set_ne, replicate, length-replicate,
}
use custom_peach_os.Prelude.Bits.{and_low}
use custom_peach_os.Idt.{
  IdtDesc, null_desc, idt_desc, idt_set, init_loop, idt_init, total_interrupts,
  kernel_code_selector,
}

abbrev pub handler : IdtDesc → ℕ
handler d = d.offset_1 + d.offset_2 * 2 ^ 16

length-idt_set : (ds : List IdtDesc) (i a : ℕ) → length (idt_set ds i a) ≡ length ds
unfolding idt_set
length-idt_set ds i a = length-set ds i (idt_desc a)

get_or-idt_set :
    (ds : List IdtDesc) (i k a : ℕ)
    → i < length ds
    → get_or (idt_set ds i a) k null_desc ≡ (if k == i then idt_desc a else get_or ds k null_desc)
unfolding idt_set
get_or-idt_set ds i k a lt = elim (Bool-cases (k == i)) [
  | inl e ↦ rw ((==_iff k i).0 e, get_or-set_self ds i (idt_desc a) null_desc lt) (ground arith)
  | inr ne ↦ rw (get_or-set_ne ds i k (idt_desc a) null_desc (ground arith), ne)
]

length-init_loop :
    (rounds i : ℕ) (pointers : List ℕ) (ds : List IdtDesc)
    → length (init_loop rounds i pointers ds) ≡ length ds
unfolding init_loop
length-init_loop zero i pointers ds = refl
length-init_loop (suc rounds) i pointers ds =
    length-init_loop rounds (i + 1) pointers (idt_set ds i (get_or pointers i 0))
    ∙ length-idt_set ds i (get_or pointers i 0)

get_or-init_loop :
    (rounds i k : ℕ) (pointers : List ℕ) (ds : List IdtDesc)
    → i + rounds ≤ length ds
    → get_or (init_loop rounds i pointers ds) k null_desc ≡ (
        if leb i k && ltb k (i + rounds)
        then idt_desc (get_or pointers k 0)
        else get_or ds k null_desc)
unfolding init_loop
get_or-init_loop zero i k pointers ds h = ground arith
get_or-init_loop (suc rounds) i k pointers ds h =
    let ds' = idt_set ds i (get_or pointers i 0) in
    let same = length-idt_set ds i (get_or pointers i 0) in
    get_or-init_loop rounds (i + 1) k pointers ds' (omega (arith, same))
    ∙ ground (
      arith,
      get_or-idt_set ds i k (get_or pointers i 0) (omega arith),
      ap (λ j. get_or pointers j 0) {x = k} {y = i},
    )

handler-idt_desc :
    (a : ℕ)
    → (handler (idt_desc a) ≡ a)
      × ((idt_desc a).selector ≡ kernel_code_selector)
      × ((idt_desc a).type_attr ≡ 0xee)
unfolding idt_desc
handler-idt_desc a = (
  omega (
    arith,
    ap (λ (t : ℕ). bit_and t 0xffff) {x = a} {y = a / 65536 * 2 ^ 16 + a % 65536} (omega arith),
    and_low 16 (a / 65536) (a % 65536) (omega arith),
  ),
  refl,
  refl,
)

last_two :
    (ds : List IdtDesc) (z w i : ℕ)
    → length ds ≡ total_interrupts
    → get_or (idt_set (idt_set ds 0 z) 0x80 w) i null_desc
      ≡ (if i == 0x80 then idt_desc w else (if i == 0 then idt_desc z else get_or ds i null_desc))
last_two ds z w i len =
    get_or-idt_set (idt_set ds 0 z) 0x80 i w (omega (arith, length-idt_set ds 0 z))
    ∙ ap (λ (d : IdtDesc). if i == 0x80 then idt_desc w else d)
        (get_or-idt_set ds 0 i z (omega arith))

all_of_them :
    (pointers : List ℕ) (i : ℕ)
    → i < total_interrupts
    → get_or
        (init_loop total_interrupts 0 pointers (replicate total_interrupts null_desc))
        i
        null_desc
      ≡ idt_desc (get_or pointers i 0)
all_of_them pointers i lt =
    get_or-init_loop total_interrupts 0 i pointers (replicate total_interrupts null_desc)
      (omega (arith, length-replicate total_interrupts null_desc))
    ∙ ground arith

choose :
    (i w z p : ℕ) {d : IdtDesc}
    → d ≡ idt_desc p
    → (if i == 0x80 then idt_desc w else (if i == 0 then idt_desc z else d))
      ≡ idt_desc (if i == 0x80 then w else (if i == 0 then z else p))
choose i w z p e = ground (arith, e)

idt_init-entry :
    (pointers : List ℕ) (idt_zero isr80h_wrapper i : ℕ)
    → i < total_interrupts
    → get_or (idt_init pointers idt_zero isr80h_wrapper) i null_desc
      ≡ idt_desc
          (if i == 0x80 then isr80h_wrapper else (if i == 0 then idt_zero else get_or pointers i 0))
unfolding idt_init
idt_init-entry pointers idt_zero isr80h_wrapper i lt =
    last_two (init_loop total_interrupts 0 pointers (replicate total_interrupts null_desc)) idt_zero
      isr80h_wrapper i
      (length-init_loop total_interrupts 0 pointers (replicate total_interrupts null_desc)
        ∙ length-replicate total_interrupts null_desc)
    ∙ choose i isr80h_wrapper idt_zero (get_or pointers i 0) (all_of_them pointers i lt)

-- After `idt_init` each of the 512 interrupts leads to a handler in the kernel's code segment, with
-- attributes 0xEE: number 0x80 to the wrapper of the kernel commands, number 0 to the handler of
-- the division error, and every other to the address in the pointer table.
pub idt_init_lem :
    (pointers : List ℕ) (idt_zero isr80h_wrapper i : ℕ)
    → i < total_interrupts
    → let d = get_or (idt_init pointers idt_zero isr80h_wrapper) i null_desc in
      (handler d ≡ (
        if i == 0x80 then isr80h_wrapper else (if i == 0 then idt_zero else get_or pointers i 0)))
      × (d.selector ≡ kernel_code_selector)
      × (d.type_attr ≡ 0xee)
unfolding idt_init
idt_init_lem pointers idt_zero isr80h_wrapper i lt =
    rw (idt_init-entry pointers idt_zero isr80h_wrapper i lt) (
      handler-idt_desc
        (if i == 0x80 then isr80h_wrapper else (if i == 0 then idt_zero else get_or pointers i 0)))
