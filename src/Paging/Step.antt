-- ===== src/Paging/Step.antt =====
-- One page more in a tree of tables: every other page keeps the entry that it leads to.
use my_sbuos.Base.{ℕ, ◌+◌, ◌*◌, ◌≤◌, ◌≡◌, sym, ap, ◌∙◌, ◌≢◌, some, List, arith, length}
use my_sbuos.Paging.{Machine, table_index, k_map_v}
use my_sbuos.Paging.Entry.{kernel_entry, leaf_entry-kernel_entry}
use my_sbuos.Paging.Frames.{table_index-below, slot_inj}
use my_sbuos.Paging.Walk.{walk, Levels, Supply}
use my_sbuos.Paging.Labels.{Labels}
use my_sbuos.Paging.Map.{k_map_v-Mapped_at}
use my_sbuos.Paging.Keep.{walk-kept}
-- The label at which the walk from a label `a` ends.
use my_sbuos.Paging.Ways.{page_number, way, walk-way, way-page}

-- The tables under `root` are a tree, and `spare` more of them can be made.
pub record Tree (root : ℕ) (s : Machine) (spare : ℕ) : Type 0 where
  pub level : ℕ → ℕ
  pub label : ℕ → ℕ
  pub bases : List ℕ
  pub levels : Levels level s.memory
  pub labels : Labels level label s.memory
  pub root_level : level root ≡ 4
  pub supply : Supply level s.pages bases
  pub enough : spare ≤ length bases

-- The address `virt` has the entry `e`.
abbrev pub Leads : (m : ℕ → ℕ) (root virt e : ℕ) → Type 0
Leads m root virt e = (slot : ℕ) × (walk 4 m root virt ≡ some slot) × (m slot ≡ e)

-- Every address that leads to an entry, and is in none of the pages `Away` leaves out, still does.
abbrev pub KeepsAll : (Away : ℕ → Type 0) (root : ℕ) (m m' : ℕ → ℕ) → Type 0
KeepsAll Away root m m' =
    (other e : ℕ)
    → table_index 4 other ≢ 510
    → e ≢ 0
    → Away other
    → Leads m root other e
    → Leads m' root other e

pub record Stepped (phys virt root spare : ℕ) (s : Machine) : Type 0 where
  pub after : Machine
  pub result : k_map_v 4 phys virt root s ≡ some after
  pub tree : Tree root after spare
  pub here : Leads after.memory root virt (kernel_entry phys)
  pub others : KeepsAll (λ other. page_number other ≢ page_number virt) root s.memory after.memory

pub k_map_v-Stepped :
    (phys virt root spare : ℕ) (s : Machine)
    → table_index 4 virt ≢ 510
    → Tree root s (3 + spare)
    → Stepped phys virt root spare s
k_map_v-Stepped phys virt root spare s special t =
    let r =
      k_map_v-Mapped_at 3 phys virt root t.level s t.bases t.levels t.root_level (omega arith)
        special t.supply (omega (arith, t.enough)) in
    let used : t.level root ≢ 0 = λ z. omega (arith, t.root_level, z) in
    let at = r.extends root used ∙ t.root_level in
    let l = r.relabelled t.label t.labels in
    let spot =
      walk-way 4 virt root (r.leaf + 8 * table_index 1 virt) r.level' l.label' r.after.memory
        r.levels l.labels at special r.walked in
    record {
      after = r.after;
      result = r.result;
      tree = record {
        level = r.level';
        label = l.label';
        bases = r.bases';
        levels = r.levels;
        labels = l.labels;
        root_level = at;
        supply = r.supply;
        enough = omega (arith, r.few, t.enough);
      };
      here = (r.leaf + 8 * table_index 1 virt, r.walked, r.entry ∙ leaf_entry-kernel_entry phys);
      others = λ other e special' ne away old.
          let place = old.0 in
          let u =
            walk-way 4 other root place t.level t.label s.memory t.levels t.labels t.root_level
              special' old.1 in
          let used_u : t.level u.0 ≢ 0 = λ z. omega (arith, u.1, z) in
          let at_u = r.extends u.0 used_u ∙ u.1 in
          let frame_u = t.levels.frame u.0 used_u in
          let frame_v = r.levels.frame spot.0 (λ z. omega (arith, spot.1, z)) in
          let far : u.0 + 8 * table_index 1 other ≢ r.leaf + 8 * table_index 1 virt = λ q.
            let same =
              slot_inj u.0 spot.0 (table_index 1 other) (table_index 1 virt) frame_u frame_v
                (table_index-below 1 other) (table_index-below 1 virt) (q ∙ spot.2) in
            away (
              way-page (t.label root) other virt
                (sym u.3
                  ∙ sym (l.kept u.0 used_u)
                  ∙ ap l.label' same.0
                  ∙ spot.3
                  ∙ ap (λ a. way 4 a virt) (l.kept root used))
                same.1) in
          (
            place,
            walk-kept 4 other root place t.level s.memory r.after.memory r.leaf (table_index 1 virt)
                r.level' t.levels r.levels r.extends r.leaf_level (table_index-below 1 virt) r.kept
                t.root_level special' old.1,
            ap r.after.memory u.2
                ∙ r.kept u.0 (table_index 1 other) used_u (table_index-below 1 other)
                    (λ z. ne (sym old.2 ∙ ap s.memory u.2 ∙ z)) far
                ∙ sym (ap s.memory u.2)
                ∙ old.2,
          );
    }
