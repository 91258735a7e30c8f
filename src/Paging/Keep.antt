-- ===== src/Paging/Keep.antt =====
-- What `k_map_v` means for the processor: one address is mapped, all other translations are kept.
use my_sbuos.Base.{
  ℕ, zero, suc, ◌+◌, ◌*◌, ◌/◌, ◌%◌, ◌^◌, ◌≤◌, ◌<◌, ◌≡◌, refl, ne→==, sym, ap, ◌∙◌, ◌≢◌, inl, inr,
  Bool, true, false, Option, none, some, List, arith, ◌==◌, if◌then◌else◌, Bool-cases, length,
  subst,
}
use Prim.Native.Nat.{bit_and}
use my_sbuos.Paging.{Machine, table_index, frame_mask, k_map_v}
use my_sbuos.Paging.Entry.{kernel_entry, leaf_entry-kernel_entry, kernel_entry-frame}
use my_sbuos.Paging.Frames.{table_index-below, slot_inj}
use my_sbuos.Paging.Walk.{walk, Levels, Supply}
use my_sbuos.Paging.Grow.{Extends}
use my_sbuos.Virtual.{translate}
use my_sbuos.Paging.Map.{special_level, k_map_v-Mapped_at}

-- an entry that is not present ends the walk
pub absent-no :
    {slot : ℕ} (b : Bool) (o : Option ℕ) → b ≡ true → (if b then none else o) ≡ some slot → ⊥
absent-no true o e w = absurd (cc)
absent-no false o e w = absurd (cc)

pub present-walk :
    {slot : ℕ} (b : Bool) (o : Option ℕ)
    → b ≡ false
    → (if b then none else o) ≡ some slot
    → o ≡ some slot
present-walk true o e w = absurd (cc)
present-walk false o e w = w

none_not : {x : ℕ} → ◌≡◌ {A = Option ℕ} none (some x) → ⊥
none_not e = absurd (cc)

-- A translation at another word of the tables survives, when its words are kept.
pub walk-kept :
    (lvl virt table slot : ℕ) (level m m' : ℕ → ℕ) (leaf i : ℕ) (level' : ℕ → ℕ)
    → Levels level m
    → Levels level' m'
    → Extends level level'
    → level' leaf ≡ 1
    → i < 512
    → ((t j : ℕ)
        → level t ≢ 0
        → j < 512
        → m (t + 8 * j) ≢ 0
        → t + 8 * j ≢ leaf + 8 * i
        → m' (t + 8 * j) ≡ m (t + 8 * j))
    → level table ≡ lvl
    → table_index 4 virt ≢ 510
    → walk lvl m table virt ≡ some slot
    → walk lvl m' table virt ≡ some slot
walk-kept zero virt table slot level m m' leaf i level' h h' ext one hi kept at special w = w
walk-kept (suc zero) virt table slot level m m' leaf i level' h h' ext one hi kept at special w = w
walk-kept (suc (suc l)) virt table slot level m m' leaf i level' h h' ext one hi kept at special w =
    let j = table_index (suc (suc l)) virt in
    let hj = table_index-below (suc (suc l)) virt in
    let used : level table ≢ 0 = λ z. omega (arith, at, z) in
    let at' : level' table ≡ suc (suc l) = ext table used ∙ at in
    let ft = h.frame table used in
    let fl = h'.frame leaf (λ z. omega (arith, one, z)) in
    let far : table + 8 * j ≢ leaf + 8 * i =
      λ q. omega (arith, at', one, ap level' (slot_inj table leaf j i ft fl hj hi q).0) in
    elim (Bool-cases (m (table + 8 * j) % 2 == 0)) [
      | inl absent ↦
          absurd
            (absent-no _ (walk (suc l) m (bit_and (m (table + 8 * j)) frame_mask) virt) absent w)
      | inr present ↦ elim (h.entry table j l at hj (special_level l virt special)) [
        | inl z ↦ absurd (ground (arith, present, z))
        | inr (odd, child) ↦
            let same = kept table j used hj (λ z. omega (arith, odd, z)) far in
            rw (same, present)
              (walk-kept (suc l) virt (bit_and (m (table + 8 * j)) frame_mask) slot level m m' leaf
                i level' h h' ext one hi kept child special
                (present-walk _ (walk (suc l) m (bit_and (m (table + 8 * j)) frame_mask) virt)
                  present w))
      ]
    ]

-- The walk ends at a word of a table of level 1.
pub walk-leaf :
    (lvl virt table slot : ℕ) (level m : ℕ → ℕ)
    → Levels level m
    → level table ≡ lvl
    → table_index 4 virt ≢ 510
    → walk lvl m table virt ≡ some slot
    → (t : ℕ) × (level t ≡ 1) × (slot ≡ t + 8 * table_index 1 virt)
walk-leaf zero virt table slot level m h at special w = absurd (none_not w)
walk-leaf (suc zero) virt table slot level m h at special w = (table, at, ground (arith, w))
walk-leaf (suc (suc l)) virt table slot level m h at special w =
    let j = table_index (suc (suc l)) virt in
    let hj = table_index-below (suc (suc l)) virt in
    elim (Bool-cases (m (table + 8 * j) % 2 == 0)) [
      | inl absent ↦
          absurd
            (absent-no _ (walk (suc l) m (bit_and (m (table + 8 * j)) frame_mask) virt) absent w)
      | inr present ↦ elim (h.entry table j l at hj (special_level l virt special)) [
        | inl z ↦ absurd (ground (arith, present, z))
        | inr (odd, child) ↦
            walk-leaf (suc l) virt (bit_and (m (table + 8 * j)) frame_mask) slot level m h child
              special
              (present-walk _ (walk (suc l) m (bit_and (m (table + 8 * j)) frame_mask) virt) present
                w)
      ]
    ]

-- The processor finds the frame of `phys` at `virt`; the tables are well-formed; every address that was
-- mapped at another word of the tables is mapped as before.
pub record Translated (phys virt root : ℕ) (level : ℕ → ℕ) (s : Machine) (out : Option Machine)
    : Type 0 where
  pub after : Machine
  pub result : out ≡ some after
  pub level' : ℕ → ℕ
  pub levels : Levels level' after.memory
  pub root_level : level' root ≡ 4
  pub slot : ℕ
  pub walked : walk 4 after.memory root virt ≡ some slot
  pub entry : after.memory slot ≡ phys / 4096 % 2 ^ 40 * 4096 + 3
  pub reached : translate after.memory root virt ≡ some (phys / 4096 % 2 ^ 40 * 4096 + virt % 4096)
  pub others :
      (other place : ℕ)
      → table_index 4 other ≢ 510
      → walk 4 s.memory root other ≡ some place
      → s.memory place ≢ 0
      → place ≢ slot
      → (walk 4 after.memory root other ≡ some place) × (after.memory place ≡ s.memory place)

-- A walk that ends at the entry of a page translates the address into the page.
translate-kernel_entry :
    (phys virt root slot : ℕ) (m : ℕ → ℕ)
    → walk 4 m root virt ≡ some slot
    → m slot ≡ kernel_entry phys
    → translate m root virt ≡ some (phys / 4096 % 2 ^ 40 * 4096 + virt % 4096)
unfolding translate
translate-kernel_entry phys virt root slot m w e =
    let odd : (kernel_entry phys % 2 == 0) ≡ false = ne→== _ _ (omega arith) in
    rw (w, e, odd, kernel_entry-frame phys) refl

-- From well-formed tables, with at least three free pages that are no tables, `k_map_v` ends. The
-- entry of `virt` is then bits 12 to 51 of `phys` with the flags for present and writable, so that the
-- processor translates `virt` into the page of `phys`; the tables are still well-formed; and every
-- address that was mapped at another word of the tables keeps its place and its entry. The addresses
-- under the entry 510 of the root, which refers to the root itself, are left out.
pub k_map_v-Translated :
    (phys virt root : ℕ) (level : ℕ → ℕ) (s : Machine) (bases : List ℕ)
    → Levels level s.memory
    → level root ≡ 4
    → table_index 4 virt ≢ 510
    → Supply level s.pages bases
    → 3 ≤ length bases
    → Translated phys virt root level s (k_map_v 4 phys virt root s)
k_map_v-Translated phys virt root level s bases h at special u enough =
    let r = k_map_v-Mapped_at 3 phys virt root level s bases h at (omega arith) special u enough in
    let entry = r.entry ∙ leaf_entry-kernel_entry phys in
    record {
      after = r.after;
      result = r.result;
      level' = r.level';
      levels = r.levels;
      root_level = r.extends root (λ z. omega (arith, at, z)) ∙ at;
      slot = r.leaf + 8 * table_index 1 virt;
      walked = r.walked;
      entry = entry;
      reached =
          translate-kernel_entry phys virt root (r.leaf + 8 * table_index 1 virt) r.after.memory
            r.walked entry;
      others = λ other place special' w nz far.
          let leaf = walk-leaf 4 other root place level s.memory h at special' w in
          (
            walk-kept 4 other root place level s.memory r.after.memory r.leaf (table_index 1 virt)
                r.level' h r.levels r.extends r.leaf_level (table_index-below 1 virt) r.kept at
                special' w,
            subst (λ a. r.after.memory a ≡ s.memory a) (sym leaf.2)
                (r.kept leaf.0 (table_index 1 other) (λ z. omega (arith, leaf.1, z))
                  (table_index-below 1 other) (λ z. nz (ap s.memory leaf.2 ∙ z))
                  (λ z. far (leaf.2 ∙ z))),
          );
    }
