-- ===== src/Paging/Region.antt =====
-- `k_mem_map_v` maps every page of a region: each step keeps the pages before it, since the tables form a
-- tree and two pages of a region have different places.
use my_sbuos.Base.{
  ℕ, zero, suc, ◌+◌, ◌*◌, ◌%◌, ◌^◌, ◌≤◌, ◌<◌, ◌≡◌, refl, sym, ap, ◌∙◌, ◌≢◌, ◌⊎◌, inl, inr, true,
  false, Option, some, arith, ltb, subst,
}
use my_sbuos.Pages.{page_size}
use my_sbuos.Paging.{Machine, table_index, k_map_v, k_mem_map_v}
-- The label at which the walk from a label `a` ends.
use my_sbuos.Paging.Ways.{page_number}
use my_sbuos.Paging.Entry.{kernel_entry, kernel_entry-present}
use my_sbuos.Paging.Step.{Tree, Leads, KeepsAll, k_map_v-Stepped}

pub fewer : {root a b : ℕ} {s : Machine} → Tree root s a → b ≤ a → Tree root s b
fewer t h = record {
  level = t.level;
  label = t.label;
  bases = t.bases;
  levels = t.levels;
  labels = t.labels;
  root_level = t.root_level;
  supply = t.supply;
  enough = omega (arith, h, t.enough);
}

next_page : (v i : ℕ) → v + 4096 * suc i ≡ v + 4096 + 4096 * i
next_page v i = omega arith

first_or_later : (i : ℕ) → (i ≡ 0) ⊎ ((j : ℕ) × (i ≡ suc j))
first_or_later zero = inl refl
first_or_later (suc j) = inr (j, refl)

-- The address and the frame of a page, rewritten.
leads_at :
    (m : ℕ → ℕ) (root : ℕ) {v w p q : ℕ}
    → v ≡ w
    → p ≡ q
    → Leads m root v (kernel_entry p)
    → Leads m root w (kernel_entry q)
leads_at m root {v} {w} {p} {q} e z h =
    subst (λ x. Leads m root x (kernel_entry q)) e
      (subst (λ y. Leads m root v (kernel_entry y)) z h)

-- The pages of a region of less than 2 ^ 36 pages are different ones.
pub pages_distinct :
    (v i j : ℕ) → i < j → j < 2 ^ 36 → page_number (v + 4096 * i) ≢ page_number (v + 4096 * j)
pages_distinct v i j l h e = omega (arith, l, h, e)

k_mem_map_v-step :
    (f base end_ virt root base' virt' : ℕ) (s s' : Machine) (out : Option (ℕ × Machine))
    → ltb base end_ ≡ true
    → k_map_v 4 base virt root s ≡ some s'
    → (base + page_size) % 2 ^ 64 ≡ base'
    → (virt + page_size) % 2 ^ 64 ≡ virt'
    → k_mem_map_v f base' end_ virt' root s' ≡ out
    → k_mem_map_v (suc f) base end_ virt root s ≡ out
unfolding k_mem_map_v
k_mem_map_v-step f base end_ virt root base' virt' s s' out go mapped b v rest =
    rw (k_mem_map_v, go, mapped, b, v) rest

away_first : (v d : ℕ) → suc d < 2 ^ 36 → page_number v ≢ page_number (v + 4096 + 4096 * d)
away_first v d h e = omega (arith, h, e)

-- The pages of a region lead to their frames, every other page that was mapped is kept, and the tables
-- are a tree.
pub record Region (n base virt root spare : ℕ) (s : Machine) (out : Option (ℕ × Machine))
    : Type 0 where
  pub after : Machine
  pub result : out ≡ some (virt + 4096 * n, after)
  pub tree : Tree root after spare
  pub pages :
      (i : ℕ) → i < n → Leads after.memory root (virt + 4096 * i) (kernel_entry (base + 4096 * i))
  pub others :
      KeepsAll
        (λ other. (i : ℕ) → i < n → page_number other ≢ page_number (virt + 4096 * i))
        root
        s.memory
        after.memory

-- From tables that are a tree, `k_mem_map_v` on a region of `n` pages, the last one perhaps in part, ends with fuel for one round
-- more. It returns the address behind the region; every page of the region leads to its frame with
-- the kernel's flags; every other page keeps the entry that it led to; and the tables are still a
-- tree. The physical and the virtual region end below 2 ^ 64, the region is at most 2 ^ 36 pages
-- long, no page of it stands under the entry 510 of the root, and there are three free pages for each
-- page of the region.
pub k_mem_map_v-Region :
    (n f base end_ virt root spare : ℕ) (s : Machine)
    → n < f
    → n ≤ 2 ^ 36
    → end_ ≤ base + 4096 * n
    → base + 4096 * n < end_ + 4096
    → base + 4096 * n < 2 ^ 64
    → virt + 4096 * n < 2 ^ 64
    → ((i : ℕ) → i < n → table_index 4 (virt + 4096 * i) ≢ 510)
    → Tree root s (3 * n + spare)
    → Region n base virt root spare s (k_mem_map_v f base end_ virt root s)
unfolding k_mem_map_v
k_mem_map_v-Region n zero base end_ virt root spare s fuel len top bottom pb vb special t =
    absurd (omega arith)
k_mem_map_v-Region zero (suc f) base end_ virt root spare s fuel len top bottom pb vb special t =
    let stop : ltb base end_ ≡ false = ground arith in
    let none_moved : virt + 0 ≡ virt = omega arith in
    record {
      after = s;
      result = rw (k_mem_map_v, stop) (ap (λ (v : ℕ). some (v, s)) (sym none_moved));
      tree = fewer t (omega arith);
      pages = λ i h. absurd (omega arith);
      others = λ other e special' ne away old. old;
    }
k_mem_map_v-Region (suc n) (suc f) base end_ virt root spare s fuel len top bottom pb vb special t =
    let go : ltb base end_ ≡ true = ground arith in
    let first : virt + 4096 * 0 ≡ virt = omega arith in
    let special0 : table_index 4 virt ≢ 510 =
      subst (λ v. table_index 4 v ≢ 510) first (special 0 (omega arith)) in
    let a = k_map_v-Stepped base virt root (3 * n + spare) s special0 (fewer t (omega arith)) in
    let base1 : (base + page_size) % 2 ^ 64 ≡ base + 4096 = omega arith in
    let virt1 : (virt + page_size) % 2 ^ 64 ≡ virt + 4096 = omega arith in
    let r =
      k_mem_map_v-Region n f (base + 4096) end_ (virt + 4096) root spare a.after (omega arith)
        (omega arith) (omega arith) (omega arith) (omega arith) (omega arith)
        (λ i h.
          subst (λ v. table_index 4 v ≢ 510) (next_page virt i) (special (suc i) (omega arith)))
        a.tree in
    record {
      after = r.after;
      result =
          k_mem_map_v-step f base end_ virt root (base + 4096) (virt + 4096) s a.after _ go a.result
            base1 virt1 (r.result ∙ ap (λ (v : ℕ). some (v, r.after)) (sym (next_page virt n)));
      tree = r.tree;
      pages = λ i h. elim (first_or_later i) [
        | inl e ↦ leads_at r.after.memory root (omega (arith, e)) (omega (arith, e)) (
            r.others virt (kernel_entry base) special0 (kernel_entry-present base)
              (λ d l. away_first virt d (omega arith)) a.here)
        | inr (j, e) ↦
            leads_at r.after.memory root (omega (arith, e)) (omega (arith, e))
              (r.pages j (omega (arith, e)))
      ];
      others = λ other e special' ne away old.
          r.others other e special' ne
            (λ i l.
              subst (λ v. page_number other ≢ page_number v) (next_page virt i)
                (away (suc i) (omega arith)))
            (a.others other e special' ne
              (subst (λ v. page_number other ≢ page_number v) first (away 0 (omega arith))) old);
    }
