-- ===== src/Heap/Tests.antt =====
-- A block of 100 bytes at the break that a process begins with.
use my_sbuos.Base.{ℕ, ◌≡◌, arith}
use my_sbuos.Process.Sample.{sample_block, sample_kernel}
use my_sbuos.Process.{Kernel, Pcb}
use my_sbuos.Syscall.Memory.{with_break}
use my_sbuos.Heap.{malloc}
use my_sbuos.Heap.Blocks.{malloc-break_of}

abbrev block : Pcb
block = sample_block 0x700000000000

abbrev kernel : Kernel
kernel = sample_kernel block

malloc-break_of_example :
    ◌≡◌ {A = ℕ × Kernel} (malloc 100 kernel) (0x700000000000, with_break 0x700000000064 kernel)
malloc-break_of_example = malloc-break_of 100 kernel (omega arith) (omega arith)
