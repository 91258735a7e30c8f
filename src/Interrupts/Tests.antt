-- ===== src/Interrupts/Tests.antt =====
-- A page fault in the page of the kernel, and the table of the handlers.
use my_sbuos.Base.{ℕ, some, ◌==◌, if◌then◌else◌}
use my_sbuos.Pages.{Pages}
use my_sbuos.Process.Sample.{sample_block, sample_kernel}
use my_sbuos.Virtual.Sample.{space}
use my_sbuos.Creation.{System}
use my_sbuos.Interrupts.{IdtDescriptor, Handlers, idts_setup}
use my_sbuos.Interrupts.Table.{Entry, idts_setup-Entry}

abbrev pages : Pages
pages = record {
  page_list =
      λ i. if i == 1 then record { base = 0x9000; next = 0 } else record { base = 0; next = 0 };
  free = record { head = 1; tail = 1 };
  used = record { head = 0; tail = 0 };
}

abbrev system : System
system = record {
  kernel = sample_kernel (record (sample_block 0) { pml4 = 0x1000 });
  space = record space { machine = record (space.machine) { pages = pages } };
}

abbrev handlers : Handlers
handlers = record {
  double_fault = 0;
  protection_fault = 0;
  pagefault = 0;
  timer = 0;
  keyboard = 0xffffffff80201234;
  syscall = 0;
}

abbrev empty_table : ℕ → IdtDescriptor
empty_table v = record {
  offset_low = 0;
  selector = 0;
  zero1 = 0;
  type_attr = 0;
  offset_mid = 0;
  offset_high = 0;
  zero2 = 0;
}

idts_setup-Entry_example :
    Entry (empty_table 0x21) (some 0xffffffff80201234) (idts_setup handlers empty_table 0x21)
idts_setup-Entry_example = idts_setup-Entry handlers empty_table 0x21
