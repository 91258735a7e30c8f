-- ===== src/Boot/Root.antt =====
-- The first table of `setup_paging`: the free list after both filters, and the root with its entry 510.
use my_sbuos.Base.{
  fun_ext, ℕ, suc, ◌+◌, ◌*◌, ◌≤◌, ◌<◌, ◌≡◌, refl, sym, ap, ◌∙◌, ◌≢◌, ◌⊎◌, inl, inr, false, List, [],
  ◌∷◌, map, arith, ◌==◌, Bool-cases, ==_iff, length, All, NotIn, Distinct, update, update_self,
  update_other, subst,
}
use Prim.Native.Nat.{bit_or}
use my_sbuos.Pages.{Pages}
use my_sbuos.Pages.Chain.{Chain}
use my_sbuos.Pages.Build.{done, in_range, no_pages, filter_out_pages}
use my_sbuos.Pages.Build.Filter.{keep, base_of, filter_out_pages-Filtered}
use my_sbuos.Paging.{Machine, zero_out, set_word, user_flags}
use my_sbuos.Paging.Frames.{IsFrame, zero_out-cleared}
use my_sbuos.Paging.Walk.{Supply, Supply-update}
use my_sbuos.Paging.Step.{Tree}

-- The bases of the free pages outside the kernel and the screen are `r` and then `bs`; no page is used.
pub record Usable (p : Pages) (physbase physfree r : ℕ) (bs : List ℕ) : Type 0 where
  pub free : List ℕ
  pub chain : Chain p.page_list p.free.head free
  pub distinct : Distinct free
  pub used_none : p.used ≡ no_pages
  pub first_base : (p.page_list 0).base ≡ 0
  pub are :
      r ∷ bs
      ≡ map (base_of p.page_list) (
          keep 0xb7000 0xbb200
            (base_of p.page_list)
            (keep physbase physfree (base_of p.page_list) free))
  pub frames : All IsFrame (r ∷ bs)
  pub bases_distinct : Distinct (r ∷ bs)

-- no table yet
abbrev pub no_level : ℕ → ℕ
no_level t = 0

-- The pages after both filters.
pub record TwiceFiltered (f physbase physfree r : ℕ) (bs : List ℕ) (p : Pages) : Type 0 where
  pub p1 : Pages
  pub p2 : Pages
  pub first : filter_out_pages f physbase physfree p ≡ done p1
  pub second : filter_out_pages f 0xb7000 0xbb200 p1 ≡ done p2
  pub supply : Supply no_level p2 (r ∷ bs)

nothing_kept : (r : ℕ) (bs : List ℕ) (g : ℕ → ℕ) (xs : List ℕ) → r ∷ bs ≡ map g xs → xs ≢ []
nothing_kept r bs g xs e z = absurd (cc)

keep-nil : (base top : ℕ) (g : ℕ → ℕ) (xs : List ℕ) → keep base top g xs ≢ [] → xs ≢ []
keep-nil base top g xs h z = h (ap (keep base top g) z)

keep-length : (base top : ℕ) (g : ℕ → ℕ) (xs : List ℕ) → length (keep base top g xs) ≤ length xs
keep-length base top g [] = omega arith
keep-length base top g (x ∷ xs) = elim (Bool-cases (in_range base top (g x))) [
  | inl e ↦ rw e (omega (arith, keep-length base top g xs))
  | inr e ↦ rw e (omega (arith, keep-length base top g xs))
]

fresh_all : (bs : List ℕ) → All IsFrame bs → All (λ b. (no_level b ≡ 0) × IsFrame b) bs
fresh_all [] h = tt
fresh_all (b ∷ bs) h = ((refl, h.0), fresh_all bs h.1)

pub filters-TwiceFiltered :
    (f physbase physfree r : ℕ) (bs : List ℕ) (p : Pages) (u : Usable p physbase physfree r bs)
    → 0 < physbase
    → length u.free < f
    → TwiceFiltered f physbase physfree r bs p
filters-TwiceFiltered f physbase physfree r bs p u above fuel =
    let b = base_of p.page_list in
    let out1 : in_range physbase physfree (p.page_list 0).base ≡ false =
      ground (arith, u.first_base) in
    let kept2 = nothing_kept r bs b _ u.are in
    let kept1 = keep-nil 0xb7000 0xbb200 b _ kept2 in
    let a =
      filter_out_pages-Filtered f physbase physfree p u.free out1 u.chain u.distinct (λ z. kept1)
        fuel in
    let same : base_of a.after.page_list ≡ b = fun_ext a.bases in
    let out2 : in_range 0xb7000 0xbb200 (a.after.page_list 0).base ≡ false =
      ground (arith, u.first_base, a.bases 0) in
    let xs = keep physbase physfree b u.free in
    let kept2' : keep 0xb7000 0xbb200 (base_of a.after.page_list) xs ≢ [] = rw same kept2 in
    let c =
      filter_out_pages-Filtered f 0xb7000 0xbb200 a.after xs out2 a.chain a.distinct (λ z. kept2')
        (omega (arith, keep-length physbase physfree b u.free, fuel)) in
    let same2 : base_of c.after.page_list ≡ b = fun_ext c.bases ∙ same in
    let fl = keep 0xb7000 0xbb200 (base_of a.after.page_list) xs in
    let none_used : c.after.used ≡ no_pages = c.ends.0 ∙ a.ends.0 ∙ u.used_none in
    record {
      p1 = a.after;
      p2 = c.after;
      first = a.result;
      second = c.result;
      supply = record {
        free = fl;
        used = [];
        owned = record {
          free_chain = c.chain;
          free_distinct = c.distinct;
          used_list = record {
            chain = ap (λ e. e.head) none_used;
            tail_is = ap (λ e. e.tail) none_used;
            distinct = tt;
          };
          apart = λ j k. tt;
        };
        are = rw (same2, same) u.are;
        fresh = fresh_all (r ∷ bs) u.frames;
        distinct = u.bases_distinct;
      };
    }

-- The machine with the root at `r`: cleared, and its entry 510 set.
abbrev pub rooted : (r : ℕ) → Machine → Machine
rooted r s =
    set_word (r + 8 * 0x1fe) (bit_or r user_flags) (record s { memory = zero_out r s.memory })

abbrev pub root_level_of : (r : ℕ) → ℕ → ℕ
root_level_of r = update no_level r 4

only_root : (r t l : ℕ) → root_level_of r t ≡ suc l → (t ≡ r) × (l ≡ 3)
only_root r t l h = elim (Bool-cases (t == r)) [
  | inl e ↦
      let same : t ≡ r = (==_iff _ _).0 e in
      (same, omega (arith, h, ap (root_level_of r) same, update_self no_level r 4))
  | inr e ↦
      let other : t ≢ r = ground (arith, e) in
      absurd (omega (arith, h, update_other no_level r t 4 other))
]

rooted-empty :
    (r t i l : ℕ) (s : Machine)
    → IsFrame r
    → root_level_of r t ≡ suc (suc l)
    → i < 512
    → (l ≢ 2) ⊎ (i ≢ 510)
    → (rooted r s).memory (t + 8 * i) ≡ 0
unfolding set_word
rooted-empty r t i l s fr lt hi special =
    let at = only_root r t (suc l) lt in
    let ne : i ≢ 510 = elim special [ inl z ↦ absurd (z (omega (arith, at.1))) | inr z ↦ z ] in
    rw at.0 (
      update_other (zero_out r s.memory) (r + 8 * 0x1fe) (r + 8 * i) (bit_or r user_flags)
        (λ e. ne (omega (arith, e)))
      ∙ zero_out-cleared r s.memory i hi)

pub rooted-Tree :
    (r : ℕ) (bs : List ℕ) (s : Machine)
    → IsFrame r
    → NotIn r bs
    → Supply no_level s.pages bs
    → Tree r (rooted r s) (length bs)
unfolding set_word
rooted-Tree r bs s fr out u = record {
  level = root_level_of r;
  label = λ t. 0;
  bases = bs;
  levels = record {
    frame = λ t ne. elim (Bool-cases (t == r)) [
      | inl e ↦ subst IsFrame (sym ((==_iff _ _).0 e)) fr
      | inr e ↦
          let other : t ≢ r = ground (arith, e) in absurd (ne (update_other no_level r t 4 other))
    ];
    entry = λ t i l lt hi special. inl (rooted-empty r t i l s fr lt hi special);
  };
  labels = λ t i l lt hi special nz. absurd (nz (rooted-empty r t i l s fr lt hi special));
  root_level = update_self no_level r 4;
  supply = Supply-update no_level s.pages r 4 bs out u;
  enough = omega arith;
}
