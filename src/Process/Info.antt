-- ===== src/Process/Info.antt =====
-- `_get_process_info` of sys/process_helpers.c: the table of the processes for `ps`.
use my_sbuos.Base.{ℕ, zero, suc, Option, none, some, List, leb, ◌==◌, if◌then◌else◌, update}
use my_sbuos.Process.{process_queue_size, Pcb, Kernel, advance, is_finished}

-- `pspcb`, with the bytes of the name before its zero
pub record PsInfo : Type 0 where
  pub pid : ℕ
  pub ppid : ℕ
  pub pname : List ℕ

pub info_of : Pcb → PsInfo
info_of p = record { pid = p.pid; ppid = p.ppid; pname = p.pname }

-- `i` entries are filled. The test for the size stands behind an entry.
pub info_from :
    ℕ
    → (size : ℕ) (pcbs : ℕ → Pcb) (slots : ℕ → ℕ) (ptr tail i : ℕ) → (ℕ → PsInfo)
    → Option (ℕ × (ℕ → PsInfo))
info_from zero size pcbs slots ptr tail i buffer = none
info_from (suc f) size pcbs slots ptr tail i buffer =
    let filled = update buffer i (info_of (pcbs (slots ptr))) in
    let skip = is_finished (pcbs (slots ptr)).status in
    let rest =
      info_from f size pcbs slots (advance ptr) tail (if skip then i else suc i)
        (if skip then buffer else filled) in
    if ptr == tail
    then some (i, buffer)
    else if skip
    then rest
    else if leb size (suc i)
    then some (suc i, filled)
    else rest

pub get_process_info : (size : ℕ) → Kernel → (ℕ → PsInfo) → Option (ℕ × (ℕ → PsInfo))
get_process_info size k buffer =
    info_from process_queue_size size k.pcbs k.slots k.head k.tail 0 buffer
