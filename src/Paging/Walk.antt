-- ===== src/Paging/Walk.antt =====
-- What the tables mean: the processor's walk through four levels, and the state of well-formed tables.
use my_sbuos.Base.{
  ℕ, zero, suc, ◌+◌, ◌*◌, ◌%◌, ◌<◌, ◌≡◌, sym, ap, ◌∙◌, ◌≢◌, ◌⊎◌, Option, none, some, List, [], ◌∷◌,
  ◌++◌, map, ◌==◌, if◌then◌else◌, get_or, All, NotIn, Distinct, update, update_other,
}
use mathlib.Core.Path.{fun_ext}
use Prim.Native.Nat.{bit_and}
use my_sbuos.Pages.{Pages, get_free_page}
use my_sbuos.Pages.Free.{Owned, get_free_page-Owned}
use my_sbuos.Paging.{Machine, take_page, table_index, frame_mask}
use my_sbuos.Paging.Frames.{IsFrame}

-- The address of the entry of `virt` in a table of level 1, when all entries above are present.
abbrev pub walk : (lvl : ℕ) → (m : ℕ → ℕ) (table virt : ℕ) → Option ℕ
walk zero m table virt = none
walk (suc zero) m table virt = some (table + 8 * table_index 1 virt)
walk (suc (suc l)) m table virt =
    let e = m (table + 8 * table_index (suc (suc l)) virt) in
    let rest = walk (suc l) m (bit_and e frame_mask) virt in if e % 2 == 0 then none else rest

-- An entry is 0, or present and leads to a table of the level below.
abbrev pub Entry : (level : ℕ → ℕ) (l e : ℕ) → Type 0
Entry level l e = (e ≡ 0) ⊎ ((e % 2 ≡ 1) × (level (bit_and e frame_mask) ≡ suc l))

-- Each address has a level, 0 when no table stands there. The entry 510 of a table of level 4 refers
-- to the table itself and is left out.
pub record Levels (level : ℕ → ℕ) (m : ℕ → ℕ) : Type 0 where
  pub frame : (t : ℕ) → level t ≢ 0 → IsFrame t
  pub entry :
      (t i l : ℕ)
      → level t ≡ suc (suc l)
      → i < 512
      → (l ≢ 2) ⊎ (i ≢ 510)
      → Entry level l (m (t + 8 * i))

-- The bases of the pages in the free list, in order; none of them is a table.
pub record Supply (level : ℕ → ℕ) (s : Pages) (bases : List ℕ) : Type 0 where
  pub free : List ℕ
  pub used : List ℕ
  pub owned : Owned s free used
  pub are : bases ≡ map (λ i. (s.page_list i).base) free
  pub fresh : All (λ b. (level b ≡ 0) × IsFrame b) bases
  pub distinct : Distinct bases

-- One page less in the free list.
pub record Taken (level : ℕ → ℕ) (s : Machine) (b : ℕ) (bs : List ℕ) : Type 0 where
  pub after : Pages
  pub result : take_page s ≡ some (b, record s { pages = after })
  pub supply : Supply level after bs

abbrev rest_of : List ℕ → List ℕ
rest_of [] = []
rest_of (x ∷ xs) = xs

take_page-Taken_at :
    (level : ℕ → ℕ) (s : Machine) (b : ℕ) (bs free used : List ℕ)
    → Owned s.pages free used
    → b ∷ bs ≡ map (λ i. (s.pages.page_list i).base) free
    → All (λ b. (level b ≡ 0) × IsFrame b) (b ∷ bs)
    → Distinct (b ∷ bs)
    → Taken level s b bs
unfolding take_page
take_page-Taken_at level s b bs [] used o e f d = absurd (cc)
take_page-Taken_at level s b bs (x ∷ free) used o e f d =
    let got = get_free_page-Owned s.tail_at s.pages x free used o in
    let after = (get_free_page s.tail_at s.pages).1 in
    let bases : (λ i. (after.page_list i).base) ≡ (λ i. (s.pages.page_list i).base) =
      fun_ext got.2 in
    record {
      after = after;
      result =
          rw (got.0, take_page)
            (ap (λ (c : ℕ). some (c, record s { pages = after }))
              (got.2 x ∙ sym (ap (λ (xs : List ℕ). get_or xs 0 b) e)));
      supply = record {
        free = free;
        used = used ++ x ∷ [];
        owned = got.1;
        are = ap rest_of e ∙ ap (λ (g : ℕ → ℕ). map g free) (sym bases);
        fresh = f.1;
        distinct = d.1;
      };
    }

pub take_page-Taken :
    (level : ℕ → ℕ) (s : Machine) (b : ℕ) (bs : List ℕ)
    → Supply level s.pages (b ∷ bs)
    → Taken level s b bs
take_page-Taken level s b bs u =
    take_page-Taken_at level s b bs u.free u.used u.owned u.are u.fresh u.distinct

-- A table that was fresh leaves the rest of the supply fresh.
pub Supply-update :
    (level : ℕ → ℕ) (s : Pages) (b l : ℕ) (bs : List ℕ)
    → NotIn b bs
    → Supply level s bs
    → Supply (update level b l) s bs
Supply-update level s b l bs out u = record {
  free = u.free;
  used = u.used;
  owned = u.owned;
  are = u.are;
  fresh = go bs out u.fresh;
  distinct = u.distinct;
}
  where
    go :
        (cs : List ℕ)
        → NotIn b cs
        → All (λ c. (level c ≡ 0) × IsFrame c) cs
        → All (λ c. (update level b l c ≡ 0) × IsFrame c) cs
    go [] out f = tt
    go (c ∷ cs) out f =
        ((update_other level b c l (λ e. out.0 (sym e)) ∙ f.0.0, f.0.1), go cs out.1 f.1)
