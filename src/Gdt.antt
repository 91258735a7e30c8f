-- ===== src/Gdt.antt =====
-- sys/gdt.c: the table of segment descriptors and the descriptor of the task state. The loading of both
-- is assembly.
use my_sbuos.Base.{ℕ, ◌-◌, ◌/◌, ◌%◌, ◌^◌, ◌==◌, if◌then◌else◌}
use Prim.Native.Nat.{bit_or}

abbrev pub gdt_cs : ℕ
gdt_cs = 0x00180000000000

abbrev pub gdt_ds : ℕ
gdt_ds = 0x00100000000000

abbrev pub dpl_3 : ℕ
dpl_3 = 0x00600000000000

abbrev pub is_present : ℕ
is_present = 0x00800000000000

abbrev pub long_mode : ℕ
long_mode = 0x20000000000000

abbrev pub writable : ℕ
writable = 0x00020000000000

-- `gdt[i]` before the task state is entered.
pub gdt : (i : ℕ) → ℕ
gdt i =
    if i == 1
    then bit_or (bit_or gdt_cs is_present) long_mode
    else if i == 2
    then bit_or (bit_or gdt_ds is_present) writable
    else if i == 3
    then bit_or (bit_or (bit_or gdt_cs is_present) dpl_3) long_mode
    else if i == 4
    then bit_or (bit_or (bit_or gdt_ds is_present) writable) dpl_3
    else 0

-- `struct sys_segment_descriptor`, the bit fields from the lowest bit on.
pub record SysSegmentDescriptor : Type 0 where
  pub sd_lolimit : ℕ
  pub sd_lobase : ℕ
  pub sd_type : ℕ
  pub sd_dpl : ℕ
  pub sd_p : ℕ
  pub sd_hilimit : ℕ
  pub sd_xx1 : ℕ
  pub sd_gran : ℕ
  pub sd_hibase : ℕ
  pub sd_xx2 : ℕ
  pub sd_zero : ℕ
  pub sd_xx3 : ℕ

-- `sizeof(struct tss_t)`
abbrev pub size_of_tss : ℕ
size_of_tss = 56

-- The fields that it leaves are 0 in the table.
pub setup_tss : (tss : ℕ) → SysSegmentDescriptor → SysSegmentDescriptor
setup_tss tss sd = record sd {
  sd_lolimit = size_of_tss - 1;
  sd_lobase = tss % 2 ^ 24;
  sd_type = 9;
  sd_dpl = 0;
  sd_p = 1;
  sd_hilimit = 0;
  sd_gran = 0;
  sd_hibase = tss / 2 ^ 24 % 2 ^ 40;
}
