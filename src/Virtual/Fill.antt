-- ===== src/Virtual/Fill.antt =====
-- `add_physical_page_in`: a fresh page for an address.
use my_sbuos.Base.{
  ℕ, ◌+◌, ◌*◌, ◌%◌, ◌≡◌, refl, sym, ap, ◌∙◌, ◌≢◌, false, Option, some, List, ◌∷◌, arith, ◌==◌,
  update, update_self, update_other, subst,
}
use Prim.Native.Nat.{bit_and, bit_or}
use my_sbuos.Base.Bits.{up, down, ones, bit_and-up, bit_and-ones}
use my_sbuos.Pages.{page_size}
use my_sbuos.Paging.{table_index, frame_mask, user_flags, set_word}
use my_sbuos.Paging.Frames.{IsFrame, table_index-below, table_index-mod, user_entry}
use my_sbuos.Paging.Walk.{walk, Levels, Supply, take_page-Taken}
use my_sbuos.Paging.Keep.{walk-leaf}
use my_sbuos.Virtual.{Space, translate, add_physical_page_in, page_of}
use my_sbuos.Virtual.Present.{SelfMapped, map_page-walk}
use my_sbuos.Virtual.Cow.Copy.{write-walk}

-- the addresses of a page have the same walk
walk-page_of : (m : ℕ → ℕ) (root v : ℕ) → walk 4 m root (page_of v) ≡ walk 4 m root v
walk-page_of m root v =
    let i4 : table_index 4 (page_of v) ≡ table_index 4 v =
      rw (table_index-mod 4 (page_of v), table_index-mod 4 v) (omega arith) in
    let i3 : table_index 3 (page_of v) ≡ table_index 3 v =
      rw (table_index-mod 3 (page_of v), table_index-mod 3 v) (omega arith) in
    let i2 : table_index 2 (page_of v) ≡ table_index 2 v =
      rw (table_index-mod 2 (page_of v), table_index-mod 2 v) (omega arith) in
    let i1 : table_index 1 (page_of v) ≡ table_index 1 v =
      rw (table_index-mod 1 (page_of v), table_index-mod 1 v) (omega arith) in
    rw (i4, i3, i2, i1) refl

-- The address leads to the frame `b`, and no word but `slot` has changed.
pub record Mapped (b v slot : ℕ) (s : Space) (out : Option Space) : Type 0 where
  pub after : Space
  pub result : out ≡ some after
  pub reached : translate after.machine.memory s.cr3 v ≡ some (b + v % page_size)
  pub others : (a : ℕ) → a ≢ slot → after.machine.memory a ≡ s.machine.memory a

frame_masked : (f : ℕ) → IsFrame f → bit_and f frame_mask ≡ f
frame_masked f (q, e, small) =
    let shifted : down 12 (up 12 q) ≡ q = omega arith in
    rw e (
      bit_and-up 12 (up 12 q) (ones 40)
      ∙ ap (up 12) (ap (λ a. bit_and a (ones 40)) shifted ∙ bit_and-ones 40 q small))

-- With tables down to level 1 under a root that refers to itself, and a free page that is no table,
-- `add_physical_page_in` ends, and the address leads to that page.
pub add_physical_page_in-Mapped :
    (v slot b : ℕ) (bs : List ℕ) (level : ℕ → ℕ) (s : Space)
    → SelfMapped s.machine.memory s.cr3
    → Levels level s.machine.memory
    → level s.cr3 ≡ 4
    → Supply level s.machine.pages (b ∷ bs)
    → table_index 4 (page_of v) ≢ 510
    → walk 4 s.machine.memory s.cr3 v ≡ some slot
    → Mapped b v slot s (add_physical_page_in v s)
unfolding add_physical_page_in set_word translate
add_physical_page_in-Mapped v slot b bs level s self h at u special w =
    let m = s.machine.memory in
    let virt = page_of v in
    let t = take_page-Taken level s.machine b bs u in
    let ff = u.fresh.0.1 in
    let entry = user_entry b ff in
    let masked : bit_and b frame_mask ≡ b = frame_masked b ff in
    let place = walk-page_of m s.cr3 v ∙ w in
    let leaf = walk-leaf 4 virt s.cr3 slot level m h at special place in
    let e = bit_or b user_flags in
    let m' = update m slot e in
    let s1 : Space = record s { machine = record s.machine { pages = t.after } } in
    let done = map_page-walk b virt user_flags slot s1 self place in
    let at_leaf : update m (leaf.0 + 8 * table_index 1 virt) e ≡ m' =
      ap (λ a. update m a e) (sym leaf.2) in
    let walked : walk 4 m' s.cr3 virt ≡ some slot =
      subst (λ (g : ℕ → ℕ). walk 4 g s.cr3 virt ≡ some slot) at_leaf
        (write-walk level m s.cr3 virt slot leaf.0 (table_index 1 virt) e h at special leaf.1
          (table_index-below 1 virt) place) in
    let there : walk 4 m' s.cr3 v ≡ some slot = sym (walk-page_of m' s.cr3 v) ∙ walked in
    let at_slot : m' slot ≡ e = update_self m slot e in
    let present : (m' slot % 2 == 0) ≡ false = rw (at_slot, entry.0) (ground (arith, ff.1)) in
    let base : bit_and (m' slot) frame_mask ≡ b = rw at_slot entry.1 in
    record {
      after = record s1 { machine = record (s1.machine) { memory = m' } };
      result = rw (t.result, done, masked) refl;
      reached = rw (there, present, base) refl;
      others = λ a ne. update_other m slot a e ne;
    }
