-- ===== src/Pages/Free.antt =====
-- `get_free_page`: the first free page moves to the end of the used list.
use my_sbuos.Base.{Distinct, ℕ, ◌≡◌, refl, ◌≢◌, some, List, [], ◌∷◌, ◌++◌, NotIn, NotIn-append}
use my_sbuos.Pages.{Pages, dequeue_page, queue_page, get_free_page}
use my_sbuos.Pages.Chain.{
  IsList, dequeue_page-Chain, Chain, dequeue_page-empty, queue_page-IsList, queue_page_other,
  base-queue_page, Chain-frame,
}

-- The free list holds `fs` and the used list `us`, with no page in both. The tail of the free list
-- may be stale, as `filter_out_pages` can leave it.
pub record Owned (s : Pages) (fs us : List ℕ) : Type 0 where
  pub free_chain : Chain s.page_list s.free.head fs
  pub free_distinct : Distinct fs
  pub used_list : IsList s.page_list s.used us
  pub apart : (j : ℕ) → ¬ NotIn j fs → NotIn j us

get_free_page-eq :
    (tail_at : ℕ) (s : Pages) (x : ℕ) {p : ℕ}
    → s.free.head ≡ x
    → (dequeue_page tail_at s.page_list s.free).0 ≡ some p
    → get_free_page tail_at s ≡ (
      some p,
      record {
        page_list = (queue_page s.page_list s.used x).0;
        free = (dequeue_page tail_at s.page_list s.free).1;
        used = (queue_page s.page_list s.used x).1;
      },
    )
unfolding get_free_page
get_free_page-eq tail_at s x e h = rw (← e, h, get_free_page)

-- When a page is free, `get_free_page` returns the first one, and moves it from the front of the
-- free list to the end of the used list; every other page stays in its list, and no base changes.
pub get_free_page-Owned :
    (tail_at : ℕ) (s : Pages) (x : ℕ) (fs us : List ℕ)
    → Owned s (x ∷ fs) us
    → ((get_free_page tail_at s).0 ≡ some x)
      × Owned (get_free_page tail_at s).1 fs (us ++ x ∷ [])
      × ((j : ℕ) → ((get_free_page tail_at s).1.page_list j).base ≡ (s.page_list j).base)
get_free_page-Owned tail_at s x fs us o =
    let (got, rest) = dequeue_page-Chain tail_at s.page_list s.free x fs o.free_chain in
    let ne : x ≢ 0 = o.free_chain.1 in
    let out : NotIn x us = o.apart x (λ k. k.0 refl) in
    rw (get_free_page-eq tail_at s x o.free_chain.0 got) (
      refl,
      record {
        free_distinct = o.free_distinct.1;
        free_chain =
            Chain-frame s.page_list (queue_page s.page_list s.used x).0 _ fs
              (λ j k.
                queue_page_other s.page_list s.used x ne j us o.used_list (o.apart j (λ n. k n.1))
                  (λ e. k (rw e o.free_distinct.0)))
              rest;
        used_list = queue_page-IsList s.page_list s.used x ne us out o.used_list;
        apart = λ j k.
            NotIn-append j us (x ∷ []) (o.apart j (λ n. k n.1))
              ((λ e. k (rw e o.free_distinct.0)), tt);
      },
      λ j. base-queue_page s.page_list s.used x ne j,
    )

-- With no page free, `get_free_page` does not return `NULL`: it hands out entry 0 of `_page_list`,
-- which is no page, whatever the address of the tail variable (no variable has address 0).
pub get_free_page-exhausted :
    (tail_at : ℕ) (s : Pages) (us : List ℕ)
    → tail_at ≢ 0
    → Owned s [] us
    → (get_free_page tail_at s).0 ≡ some 0
get_free_page-exhausted tail_at s us ne o = rw (
    get_free_page-eq tail_at s s.free.head refl
      (dequeue_page-empty tail_at s.page_list s.free ne o.free_chain))
