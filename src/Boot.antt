-- ===== src/Boot.antt =====
-- sys/main.c and `setup_paging` of sys/memory_helpers.c: from the boot loader's map of the memory to the
-- first switch to a process. The words of 4 bytes of the boot loader's data are `words`, the page tables
-- those of Paging, and `physfree` is counted in entries of the page list while it grows. `none`: the fuel
-- is used up, no page is free, or the filter panics. The assembly of `boot` and the printing are left out.
pub mod Root
pub mod Paged
mod Tests
use my_sbuos.Base.{
  ℕ, zero, suc, ◌+◌, ◌-◌, ◌*◌, ◌/◌, ◌%◌, ◌^◌, ◌≤◌, ◌<◌, ◌≡◌, refl, sym, ap, ap₂, ◌∙◌, ◌≢◌, ◌⊎◌, inl,
  inr, Bool, true, false, not, ◌&&◌, ◌||◌, Option, none, some, List, [], ◌∷◌, ◌++◌, map, append-nil,
  append_assoc, arith, ltb, leb, ◌==◌, if◌then◌else◌, Bool-cases, Option-cases, ◌>>=◌, ltb→lt,
  lt→ltb, leb→le, eq→==, ne→==, ==_iff, length, get_or, length-append, All, All-append, NotIn,
  Distinct, NotIn-append, Distinct-snoc, mem, NotIn-of_mem, mem_of_NotIn, mem-append, update,
  update_self, update_other, Holds, Holds-agree, Holds-append, Holds-append_left,
  Holds-append_right, subst,
}
use Prim.Native.Nat.{bit_or}
use my_sbuos.Pages.{page_size, MemPage, Pages}
use my_sbuos.Pages.Build.{
  Outcome, done, panic, out_of_fuel, init_pages, make_pages, filter_out_pages,
}
use my_sbuos.Paging.{Machine, take_page, zero_out, user_flags, set_word, k_mem_map_v}
use my_sbuos.Process.{process_init}
use my_sbuos.Virtual.{Space}
use my_sbuos.Tar.{Tarfs, init_tarfs}
use my_sbuos.Interrupts.{PortWrite, IdtDescriptor, Handlers, idts_setup}
use my_sbuos.Interrupts.Pic.{pic_setup}
use my_sbuos.Creation.{System, Entries, init}

abbrev pub kernel_mapping : ℕ
kernel_mapping = 0xffffffff80000000

-- `page_list_at` is the pointer `_page_list`.
pub record Kept : Type 0 where
  pub space : Space
  pub page_list_at : ℕ
  pub display_mem : ℕ

abbrev pub filtered : Outcome Pages → Option Pages
filtered (done s) = some s
filtered panic = none
filtered out_of_fuel = none

pub setup_paging :
    (f : ℕ) → (physbase physfree displaybase displayfree kernel_virtual : ℕ) → Kept → Option Kept
setup_paging f physbase physfree displaybase displayfree kernel_virtual s =
    let machine = s.space.machine in
    filtered (filter_out_pages f physbase physfree machine.pages) >>= λ p1.
    filtered (filter_out_pages f (0xb8000 - page_size) 0xbb200 p1) >>= λ p2.
    take_page (record machine { pages = p2 }) >>= λ root.
    let cleared = record (root.1) { memory = zero_out root.0 root.1.memory } in
    let rooted = set_word (root.0 + 8 * 0x1fe) (bit_or root.0 user_flags) cleared in
    k_mem_map_v f physbase physfree kernel_virtual root.0 rooted >>= λ kernel.
    k_mem_map_v f displaybase displayfree kernel.0 root.0 kernel.1 >>= λ display. some (record {
      display_mem = bit_or kernel.0 kernel_mapping;
      page_list_at = bit_or s.page_list_at kernel_mapping;
      space = record (s.space) {
        machine = display.1;
        available_virt_mem = display.0;
        cr3 = root.0;
      };
    })

-- `while(modulep[0] != 0x9001) modulep += modulep[1]+2;`
pub find_module : (f : ℕ) → (words : ℕ → ℕ) (modulep : ℕ) → Option ℕ
find_module zero words modulep = none
find_module (suc f) words modulep =
    let rest = find_module f words (modulep + (words (modulep + 1) + 2) % 2 ^ 32) in
    if words modulep == 0x9001 then some modulep else rest

-- The fields of a `smap_t` of five words.
abbrev pub smap_base : (words : ℕ → ℕ) (smap : ℕ) → ℕ
smap_base words smap = words smap + 2 ^ 32 * words (smap + 1)

abbrev pub smap_length : (words : ℕ → ℕ) (smap : ℕ) → ℕ
smap_length words smap = words (smap + 2) + 2 ^ 32 * words (smap + 3)

-- `stop` is the end of the map in bytes.
pub add_regions : (f : ℕ) → (words : ℕ → ℕ) (stop smap physfree : ℕ) → Pages → Option (ℕ × Pages)
add_regions zero words stop smap physfree s = none
add_regions (suc f) words stop smap physfree s =
    let usable = (words (smap + 4) == 1) && not (smap_length words smap == 0) in
    let made = make_pages f (smap_base words smap) (smap_length words smap) physfree s in
    elim (ltb (4 * smap) stop) [
      | false ↦ some (physfree, s)
      | true ↦ (if usable then made else some (physfree, s)) >>= λ r.
          add_regions f words stop (smap + 5) r.0 r.1
    ]

-- What the linker and the assembly files fix.
pub record Image : Type 0 where
  pub kernmem : ℕ
  pub tarfs_start : ℕ
  pub tarfs_end : ℕ
  pub handlers : Handlers
  pub entries : Entries
  pub idle_name : List ℕ
  pub shell_name : List ℕ
  pub shell_wd : List ℕ

pub record Computer : Type 0 where
  pub system : System
  pub page_list_at : ℕ
  pub display_mem : ℕ
  pub tarfs : Tarfs
  pub idt : ℕ → IdtDescriptor
  pub ports : List PortWrite

-- `a1` and `a2` are the masks that PIC_setup reads; `sti` stands before `init`.
pub start :
    (f : ℕ)
    → Image
    → (words : ℕ → ℕ) (modulep physbase physfree a1 a2 : ℕ) → Computer
    → Option Computer
start f image words modulep physbase physfree a1 a2 s = find_module f words modulep >>= λ found.
    let machine = s.system.space.machine in
    let first = init_pages machine.pages.page_list in
    add_regions f words (4 * found + words (found + 1) + 8) (found + 2) first.0 first.1
    >>= λ regions.
        let space : Space = record (s.system.space) {
          machine = record machine { pages = regions.1 };
        } in
        setup_paging f physbase (physfree + 16 * regions.0) 0xb8000 0xbb200 image.kernmem
          (record { space = space; page_list_at = physfree; display_mem = s.display_mem })
        >>= λ paged.
            let kernel = record (process_init s.system.kernel) { cr3 = paged.space.cr3 } in
            init image.entries image.idle_name image.shell_name image.shell_wd
              (record { kernel = kernel; space = paged.space })
            >>= λ system. some (record {
              system = system;
              page_list_at = paged.page_list_at;
              display_mem = paged.display_mem;
              tarfs = init_tarfs image.tarfs_start image.tarfs_end;
              idt = idts_setup image.handlers s.idt;
              ports = pic_setup a1 a2 s.ports;
            })
