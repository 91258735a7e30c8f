-- ===== src/Pages/Build/Filter.antt =====
-- `filter_out_pages`: the free list loses exactly the pages whose base is in the range.
use my_sbuos.Base.{
  ℕ, zero, suc, ◌≤◌, ◌<◌, ◌≡◌, refl, sym, ◌∙◌, ◌≢◌, inl, inr, true, false, List, [], ◌∷◌, arith,
  ◌==◌, if◌then◌else◌, Bool-cases, ne→==, length, NotIn, Distinct, update,
}
use mathlib.Core.Path.{subst}
use my_sbuos.Pages.{MemPage, Pages, set_next}
use my_sbuos.Pages.Chain.{Chain, Chain-update}
use my_sbuos.Pages.Build.{
  panic, Outcome, done, in_range, drop_front, unlink, sweep, filter_out_pages,
}

-- `b j` is the base of page `j`.
module _ (base top : ℕ) (b : ℕ → ℕ) where
  abbrev pub keep : List ℕ → List ℕ
  keep [] = []
  keep (x ∷ xs) = if in_range base top (b x) then keep xs else x ∷ keep xs

  -- the list from its first page outside the range on
  abbrev pub drop_in : List ℕ → List ℕ
  drop_in [] = []
  drop_in (x ∷ xs) = if in_range base top (b x) then drop_in xs else x ∷ xs

  abbrev pub StartsOutside : List ℕ → Type 0
  StartsOutside [] = Unit {0}
  StartsOutside (x ∷ xs) = in_range base top (b x) ≡ false

  keep-drop_in : (xs : List ℕ) → keep (drop_in xs) ≡ keep xs
  keep-drop_in [] = refl
  keep-drop_in (x ∷ xs) = elim (Bool-cases (in_range base top (b x))) [
    | inl h ↦ rw h (keep-drop_in xs)
    | inr h ↦ rw h (rw h)
  ]

  drop_in-StartsOutside : (xs : List ℕ) → StartsOutside (drop_in xs)
  drop_in-StartsOutside [] = tt
  drop_in-StartsOutside (x ∷ xs) = elim (Bool-cases (in_range base top (b x))) [
    | inl h ↦ rw h (drop_in-StartsOutside xs)
    | inr h ↦ rw h h
  ]

  NotIn-drop_in : (a : ℕ) (xs : List ℕ) → NotIn a xs → NotIn a (drop_in xs)
  NotIn-drop_in a [] h = tt
  NotIn-drop_in a (x ∷ xs) h = elim (Bool-cases (in_range base top (b x))) [
    | inl e ↦ rw e (NotIn-drop_in a xs h.1)
    | inr e ↦ rw e h
  ]

  Distinct-drop_in : (xs : List ℕ) → Distinct xs → Distinct (drop_in xs)
  Distinct-drop_in [] h = tt
  Distinct-drop_in (x ∷ xs) h = elim (Bool-cases (in_range base top (b x))) [
    | inl e ↦ rw e (Distinct-drop_in xs h.1)
    | inr e ↦ rw e h
  ]

  length-drop_in : (xs : List ℕ) → length (drop_in xs) ≤ length xs
  length-drop_in [] = omega arith
  length-drop_in (x ∷ xs) = elim (Bool-cases (in_range base top (b x))) [
    | inl e ↦ rw e (omega (arith, length-drop_in xs))
    | inr e ↦ rw e (omega arith)
  ]

  pub NotIn-keep : (a : ℕ) (xs : List ℕ) → NotIn a xs → NotIn a (keep xs)
  NotIn-keep a [] h = tt
  NotIn-keep a (x ∷ xs) h = elim (Bool-cases (in_range base top (b x))) [
    | inl e ↦ rw e (NotIn-keep a xs h.1)
    | inr e ↦ rw e (h.0, NotIn-keep a xs h.1)
  ]

  pub Distinct-keep : (xs : List ℕ) → Distinct xs → Distinct (keep xs)
  Distinct-keep [] h = tt
  Distinct-keep (x ∷ xs) h = elim (Bool-cases (in_range base top (b x))) [
    | inl e ↦ rw e (Distinct-keep xs h.1)
    | inr e ↦ rw e (NotIn-keep x xs h.0, Distinct-keep xs h.1)
  ]

  abbrev pub Bases : (ℕ → MemPage) → Type 0
  Bases pl = (j : ℕ) → (pl j).base ≡ b j

  Bases-set_next : (pl : ℕ → MemPage) (i n : ℕ) → Bases pl → Bases (set_next pl i n)
  unfolding update
  Bases-set_next pl i n h j = ground (arith, h j, h i)

  -- What unlinking behind `curr` leaves: the cells of `ys` that stay, behind `curr`.
  record Unlinked (pl : ℕ → MemPage) (curr : ℕ) (ys : List ℕ) (out : Outcome (ℕ → MemPage))
      : Type 0 where
    after : ℕ → MemPage
    result : out ≡ done after
    chain : Chain after (after curr).next (drop_in ys)
    bases : Bases after
    same : (j : ℕ) → j ≢ curr → NotIn j ys → after j ≡ pl j

  module _ (outside_0 : in_range base top (b 0) ≡ false) where
    behind :
        {pl pl' : ℕ → MemPage} {curr y : ℕ} {ys : List ℕ} {out : Outcome (ℕ → MemPage)}
        → ((j : ℕ) → j ≢ curr → j ≢ y → pl' j ≡ pl j)
        → in_range base top (b y) ≡ true
        → Unlinked pl' curr ys out
        → Unlinked pl curr (y ∷ ys) out
    behind other e u = record {
      after = u.after;
      result = u.result;
      chain = rw e u.chain;
      bases = u.bases;
      same = λ j p q. u.same j p q.1 ∙ other j p q.0;
    }

    unlink-Unlinked :
        (k : ℕ) (pl : ℕ → MemPage) (curr next : ℕ) (ys : List ℕ)
        → Chain pl next ys
        → (pl curr).next ≡ next
        → NotIn curr ys
        → Distinct ys
        → Bases pl
        → length ys < k
        → Unlinked pl curr ys (unlink k base top pl curr next)
    unfolding unlink update
    unlink-Unlinked zero pl curr next ys c l out d h fuel = absurd (omega arith)
    unlink-Unlinked (suc k) pl curr next [] c l out d h fuel =
        rw (c, h 0, outside_0)
          (record { after = pl; result = refl; chain = l ∙ c; bases = h; same = λ j p q. refl })
    unlink-Unlinked (suc k) pl curr next (y ∷ ys) c l out d h fuel =
        elim (Bool-cases (in_range base top (b y))) [
          | inl e ↦
              let pl' : ℕ → MemPage = set_next (set_next pl curr (pl y).next) y 0 in
              let test : in_range base top (pl y).base ≡ true = rw (h y) e in
              rw (c.0, test)
                (behind (λ j p q. ground arith) e
                  (unlink-Unlinked k pl' curr (pl y).next ys
                    (Chain-update _ y _ _ ys d.0 (Chain-update pl curr _ _ ys out.1 c.2))
                    (ground (arith, out.0)) out.1 d.1
                    (Bases-set_next _ y 0 (Bases-set_next pl curr _ h)) (omega arith)))
          | inr e ↦
              rw (c.0, h y, e)
                (record {
                  after = pl;
                  result = refl;
                  chain = rw e (l ∙ c.0, c.1, c.2);
                  bases = h;
                  same = λ j p q. refl;
                })
        ]

    -- Sweeping from a page `h` that stays leaves the pages outside the range.
    record Swept (pl : ℕ → MemPage) (h : ℕ) (xs : List ℕ) (out : Outcome (ℕ → MemPage))
        : Type 0 where
      after : ℕ → MemPage
      result : out ≡ done after
      chain : Chain after h (keep xs)
      bases : Bases after
      same : (j : ℕ) → NotIn j xs → after j ≡ pl j

    sweep-Swept :
        (k : ℕ) (pl : ℕ → MemPage) (h : ℕ) (xs : List ℕ)
        → Chain pl h xs
        → StartsOutside xs
        → Distinct xs
        → Bases pl
        → length xs < k
        → Swept pl h xs (sweep k base top pl h)
    unfolding sweep
    sweep-Swept zero pl h xs c o d bs fuel = absurd (omega arith)
    sweep-Swept (suc k) pl h [] c o d bs fuel =
        rw c (record { after = pl; result = refl; chain = refl; bases = bs; same = λ j p. refl })
    sweep-Swept (suc k) pl h (x ∷ xs) c o d bs fuel =
        let u = unlink-Unlinked (suc k) pl x (pl x).next xs c.2 refl d.0 d.1 bs (omega arith) in
        let r =
          sweep-Swept k u.after (u.after x).next (drop_in xs) u.chain (drop_in-StartsOutside xs)
            (Distinct-drop_in xs d.1) u.bases (omega (arith, length-drop_in xs)) in
        let busy : (x == 0) ≡ false = ne→== x 0 c.1 in
        subst (λ i. Swept pl i (x ∷ xs) (sweep (suc k) base top pl i)) (sym c.0)
          (rw (busy, u.result)
            (record {
              after = r.after;
              result = r.result;
              chain = rw o (
                refl,
                c.1,
                rw (r.same x (NotIn-drop_in x xs d.0)) (rw (← keep-drop_in xs) r.chain),
              );
              bases = r.bases;
              same = λ j p. r.same j (NotIn-drop_in j xs p.1) ∙ u.same j p.0 p.1;
            }))

    drop_front-done :
        (k : ℕ) (pl : ℕ → MemPage) (h : ℕ) (xs : List ℕ)
        → Chain pl h xs
        → Bases pl
        → (xs ≢ [] → keep xs ≢ [])
        → length xs < k
        → (h' : ℕ) × (drop_front k base top pl h ≡ done h') × Chain pl h' (drop_in xs)
    unfolding drop_front
    drop_front-done zero pl h xs c bs some_kept fuel = absurd (omega arith)
    drop_front-done (suc k) pl h [] c bs some_kept fuel = (0, rw (c, bs 0, outside_0), refl)
    drop_front-done (suc k) pl h (x ∷ []) c bs some_kept fuel =
        elim (Bool-cases (in_range base top (b x))) [
          | inl e ↦ absurd (some_kept (λ z. cc) (rw e))
          | inr e ↦ (x, rw (c.0, bs x, e), rw e (refl, c.1, c.2))
        ]
    drop_front-done (suc k) pl h (x ∷ y ∷ ys) c bs some_kept fuel =
        elim (Bool-cases (in_range base top (b x))) [
          | inl e ↦
              let some : keep (y ∷ ys) ≢ [] = λ z. some_kept (λ q. cc) (rw e z) in
              let next : ((pl x).next == 0) ≡ false = ground arith in
              let r = drop_front-done k pl (pl x).next (y ∷ ys) c.2 bs (λ q. some) (omega arith) in
              (r.0, rw (c.0, bs x, e, next) r.1, rw e r.2)
          | inr e ↦ (x, rw (c.0, bs x, e), rw e (refl, c.1, c.2))
        ]

abbrev pub base_of : (ℕ → MemPage) → ℕ → ℕ
base_of pl j = (pl j).base

-- The state after a filter: the free list is that of the pages outside the range, in order; the
-- bases, the used list's ends and the free list's tail are as before.
pub record Filtered (base top : ℕ) (s : Pages) (xs : List ℕ) (out : Outcome Pages) : Type 0 where
  pub after : Pages
  pub result : out ≡ done after
  pub chain : Chain after.page_list after.free.head (keep base top (base_of s.page_list) xs)
  pub distinct : Distinct (keep base top (base_of s.page_list) xs)
  pub bases : (j : ℕ) → (after.page_list j).base ≡ (s.page_list j).base
  pub same : (j : ℕ) → NotIn j xs → after.page_list j ≡ s.page_list j
  pub ends : (after.used ≡ s.used) × (after.free.tail ≡ s.free.tail)

filter_out_pages-eq :
    (fuel base top : ℕ) (s : Pages) (h : ℕ) (pl : ℕ → MemPage)
    → drop_front fuel base top s.page_list s.free.head ≡ done h
    → sweep fuel base top s.page_list h ≡ done pl
    → filter_out_pages fuel base top s
      ≡ done (record s { page_list = pl; free = record (s.free) { head = h } })
unfolding filter_out_pages
filter_out_pages-eq fuel base top s h pl p q = rw (p, filter_out_pages) (rw (q, filter_out_pages))

-- `filter_out_pages` ends and unlinks exactly the pages in the range, when entry 0 is outside it
-- and some page of a free list that is not empty is outside it. The tail is not set anew, so it is
-- stale when the last page is unlinked.
pub filter_out_pages-Filtered :
    (fuel base top : ℕ) (s : Pages) (xs : List ℕ)
    → in_range base top (s.page_list 0).base ≡ false
    → Chain s.page_list s.free.head xs
    → Distinct xs
    → (xs ≢ [] → keep base top (base_of s.page_list) xs ≢ [])
    → length xs < fuel
    → Filtered base top s xs (filter_out_pages fuel base top s)
filter_out_pages-Filtered fuel base top s xs out c d some_kept enough =
    let b = base_of s.page_list in
    let f =
      drop_front-done base top b out fuel s.page_list s.free.head xs c (λ j. refl) some_kept
        enough in
    let r =
      sweep-Swept base top b out fuel s.page_list f.0 (drop_in base top b xs) f.2
        (drop_in-StartsOutside base top b xs) (Distinct-drop_in base top b xs d) (λ j. refl)
        (omega (arith, length-drop_in base top b xs)) in
    record {
      after = record s { page_list = r.after; free = record (s.free) { head = f.0 } };
      result = filter_out_pages-eq fuel base top s f.0 r.after f.1 r.result;
      chain = rw (← keep-drop_in base top b xs) r.chain;
      distinct = Distinct-keep base top b xs d;
      bases = r.bases;
      same = λ j p. r.same j (NotIn-drop_in base top b j xs p);
      ends = (refl, refl);
    }

cons-ne-nil : {y : ℕ} {ys : List ℕ} → y ∷ ys ≢ []
cons-ne-nil z = cc

drop_front-panic :
    (base top k : ℕ) (pl : ℕ → MemPage) (h : ℕ) (x : ℕ) (xs : List ℕ)
    → Chain pl h (x ∷ xs)
    → keep base top (base_of pl) (x ∷ xs) ≡ []
    → length xs < k
    → drop_front k base top pl h ≡ panic
unfolding drop_front
drop_front-panic base top zero pl h x xs c none_kept fuel = absurd (omega arith)
drop_front-panic base top (suc k) pl h x [] c none_kept fuel =
    elim (Bool-cases (in_range base top (pl x).base)) [
      | inl e ↦ rw (c.0, e, c.2)
      | inr e ↦ absurd (cons-ne-nil (rw e at none_kept))
    ]
drop_front-panic base top (suc k) pl h x (y ∷ ys) c none_kept fuel =
    elim (Bool-cases (in_range base top (pl x).base)) [
      | inl e ↦
          let next : ((pl x).next == 0) ≡ false = ground arith in
          rw (c.0, e, next)
            (drop_front-panic base top k pl (pl x).next y ys c.2 (rw e at none_kept) (omega arith))
      | inr e ↦ absurd (cons-ne-nil (rw e at none_kept))
    ]

-- A free list that lies whole in the range makes it panic.
pub filter_out_pages-panic :
    (fuel base top : ℕ) (s : Pages) (x : ℕ) (xs : List ℕ)
    → Chain s.page_list s.free.head (x ∷ xs)
    → keep base top (base_of s.page_list) (x ∷ xs) ≡ []
    → length xs < fuel
    → filter_out_pages fuel base top s ≡ panic
unfolding filter_out_pages
filter_out_pages-panic fuel base top s x xs c none_kept enough = rw (
  drop_front-panic base top fuel s.page_list s.free.head x xs c none_kept enough,
  filter_out_pages,
)
