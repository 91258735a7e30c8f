-- ===== src/Boot/Paged.antt =====
-- After `setup_paging` the kernel and the screen are mapped, one behind the other.
use my_sbuos.Base.{
  ℕ, ◌+◌, ◌*◌, ◌^◌, ◌≤◌, ◌<◌, ◌≡◌, refl, sym, ◌≢◌, Option, some, List, arith, length, subst,
}
use Prim.Native.Nat.{bit_or}
use my_sbuos.Pages.{Pages}
use my_sbuos.Pages.Build.{done, filter_out_pages}
use my_sbuos.Paging.{Machine, take_page, table_index, k_mem_map_v}
use my_sbuos.Paging.Walk.{take_page-Taken}
use my_sbuos.Paging.Ways.{page_number}
use my_sbuos.Paging.Entry.{kernel_entry, kernel_entry-present}
use my_sbuos.Paging.Step.{Tree, Leads}
use my_sbuos.Paging.Region.{fewer, k_mem_map_v-Region, pages_distinct}
use my_sbuos.Boot.{Kept, kernel_mapping, setup_paging}
use my_sbuos.Boot.Root.{Usable, filters-TwiceFiltered, no_level, rooted, rooted-Tree}

-- `r` is the root. The kernel's `n` pages stand at `virt`, the screen's `d` pages behind them.
pub record Paged (n d physbase displaybase virt r : ℕ) (s : Kept) (out : Option Kept) : Type 0 where
  pub after : Kept
  pub result : out ≡ some after
  pub root : after.space.cr3 ≡ r
  pub tree : Tree r after.space.machine 0
  pub kernel_pages :
      (i : ℕ)
      → i < n
      → Leads after.space.machine.memory r (virt + 4096 * i) (kernel_entry (physbase + 4096 * i))
  pub display_pages :
      (i : ℕ)
      → i < d
      → Leads after.space.machine.memory r
          (virt + 4096 * (n + i))
          (kernel_entry (displaybase + 4096 * i))
  pub display : after.display_mem ≡ bit_or (virt + 4096 * n) kernel_mapping
  pub available : after.space.available_virt_mem ≡ virt + 4096 * (n + d)

setup_paging-eq :
    (f physbase physfree displaybase displayfree virt r v1 v2 : ℕ) (s : Kept) (p1 p2 after : Pages)
    (m1 m2 : Machine)
    → filter_out_pages f physbase physfree s.space.machine.pages ≡ done p1
    → filter_out_pages f 0xb7000 0xbb200 p1 ≡ done p2
    → take_page (record (s.space.machine) { pages = p2 })
      ≡ some (r, record (s.space.machine) { pages = after })
    → k_mem_map_v f physbase physfree virt r (rooted r (record (s.space.machine) { pages = after }))
      ≡ some (v1, m1)
    → k_mem_map_v f displaybase displayfree v1 r m1 ≡ some (v2, m2)
    → setup_paging f physbase physfree displaybase displayfree virt s
      ≡ some (record {
        display_mem = bit_or v1 kernel_mapping;
        page_list_at = bit_or s.page_list_at kernel_mapping;
        space = record (s.space) { machine = m2; available_virt_mem = v2; cr3 = r };
      })
unfolding setup_paging
setup_paging-eq f physbase physfree displaybase displayfree virt r v1 v2 s p1 p2 after m1 m2 e1 e2
      taken e3 e4 =
    rw (setup_paging, e1, e2, taken, e3, e4)

-- When the free list outside the kernel and the screen holds a page for the root and three for each
-- page to map, `setup_paging` ends. Every page of the kernel then leads from `virt` on to its frame,
-- every page of the screen leads to its frame behind them, with the kernel's flags, the tables are a
-- tree, the root is in cr3, and the display's address and the next free address are the ends of the two
-- regions. No page is in use before, the free pages are distinct frames, entry 0 of the page list has
-- the base 0 and the kernel stands above 0. The regions are `n` and `d` pages long, `n + d` is at most
-- 2 ^ 36, the fuel is more than `n + d` and than the free pages, the addresses end below 2 ^ 64 and no
-- page stands under the entry 510 of the root.
pub setup_paging-Paged :
    (n d f physbase physfree displaybase displayfree virt r : ℕ) (bs : List ℕ) (s : Kept)
    (u : Usable s.space.machine.pages physbase physfree r bs)
    → 0 < physbase
    → length u.free < f
    → n + d < f
    → n + d ≤ 2 ^ 36
    → physfree ≤ physbase + 4096 * n
    → physbase + 4096 * n < physfree + 4096
    → physbase + 4096 * n < 2 ^ 64
    → displayfree ≤ displaybase + 4096 * d
    → displaybase + 4096 * d < displayfree + 4096
    → displaybase + 4096 * d < 2 ^ 64
    → virt + 4096 * (n + d) < 2 ^ 64
    → ((i : ℕ) → i < n + d → table_index 4 (virt + 4096 * i) ≢ 510)
    → 3 * (n + d) ≤ length bs
    → Paged n d physbase displaybase virt r s
        (setup_paging f physbase physfree displaybase displayfree virt s)
setup_paging-Paged n d f physbase physfree displaybase displayfree virt r bs s u above fuel rounds
      len top bottom pb dtop dbottom db vb special enough =
    let two = filters-TwiceFiltered f physbase physfree r bs s.space.machine.pages u above fuel in
    let filtered : Machine = record (s.space.machine) { pages = two.p2 } in
    let t = take_page-Taken no_level filtered r bs two.supply in
    let taken : Machine = record (s.space.machine) { pages = t.after } in
    let tree = rooted-Tree r bs taken u.frames.0 u.bases_distinct.0 t.supply in
    let k =
      k_mem_map_v-Region n f physbase physfree virt r (3 * d) (rooted r taken) (omega arith)
        (omega arith) top bottom pb (omega arith) (λ i h. special i (omega arith))
        (fewer tree (omega arith)) in
    let behind : (i : ℕ) → virt + 4096 * (n + i) ≡ virt + 4096 * n + 4096 * i = λ i. omega arith in
    let special' : (i : ℕ) → i < d → table_index 4 (virt + 4096 * n + 4096 * i) ≢ 510 =
      λ i h. subst (λ v. table_index 4 v ≢ 510) (behind i) (special (n + i) (omega arith)) in
    let c =
      k_mem_map_v-Region d f displaybase displayfree (virt + 4096 * n) r 0 k.after (omega arith)
        (omega arith) dtop dbottom db (omega (arith, behind d)) special'
        (fewer k.tree (omega arith)) in
    record {
      after = record {
        display_mem = bit_or (virt + 4096 * n) kernel_mapping;
        page_list_at = bit_or s.page_list_at kernel_mapping;
        space = record (s.space) {
          machine = c.after;
          available_virt_mem = virt + 4096 * n + 4096 * d;
          cr3 = r;
        };
      };
      result =
          setup_paging-eq f physbase physfree displaybase displayfree virt r (virt + 4096 * n)
            (virt + 4096 * n + 4096 * d) s two.p1 two.p2 t.after k.after c.after two.first
            two.second t.result k.result c.result;
      root = refl;
      tree = c.tree;
      kernel_pages = λ i h.
          c.others (virt + 4096 * i) (kernel_entry (physbase + 4096 * i)) (special i (omega arith))
            (kernel_entry-present (physbase + 4096 * i))
            (λ j l.
              subst (λ v. page_number (virt + 4096 * i) ≢ page_number v) (behind j)
                (pages_distinct virt i (n + j) (omega arith) (omega arith)))
            (k.pages i h);
      display_pages = λ i h.
          subst (λ v. Leads c.after.memory r v (kernel_entry (displaybase + 4096 * i)))
            (sym (behind i)) (c.pages i h);
      display = refl;
      available = sym (behind d);
    }
