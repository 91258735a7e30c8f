-- ===== src/Pages/Build/Make.antt =====
-- `make_pages` on the first region: its pages, in order, make up the free list.
use my_sbuos.Base.{
  false, ℕ, zero, suc, ◌+◌, ◌*◌, ◌%◌, ◌^◌, ◌≤◌, ◌<◌, ◌≡◌, refl, ◌≢◌, inl, inr, Option, some, List,
  [], ◌∷◌, ◌++◌, arith, ltb, ◌==◌, Bool-cases, update, update_self, update_other, NotIn,
  NotIn-append,
}
use my_sbuos.Pages.{page_size, MemPage, Pages}
use my_sbuos.Pages.Chain.{IsList, Chain-update, queue_page-IsList, base-queue_page}
use my_sbuos.Pages.Build.{init_pages, make_page, make_loop, make_pages}

-- 1, 2, …, n
abbrev pub upto : ℕ → List ℕ
upto zero = []
upto (suc n) = upto n ++ suc n ∷ []

NotIn-upto : (a n : ℕ) → n < a → NotIn a (upto n)
NotIn-upto a zero h = tt
NotIn-upto a (suc n) h =
    NotIn-append a (upto n) (suc n ∷ []) (NotIn-upto a n (omega arith)) (omega arith, tt)

-- The first `n` pages from `base` on are linked in order.
pub record Built (base n : ℕ) (s : Pages) : Type 0 where
  pub linked : IsList s.page_list s.free (upto n)
  pub bases : (j : ℕ) → j < n → (s.page_list (suc j)).base ≡ base + j * page_size

make_page-Built :
    (base n index : ℕ) (s : Pages)
    → index ≡ base + n * page_size
    → Built base n s
    → Built base (suc n) (make_page index (suc n) (suc n) s)
unfolding make_page
make_page-Built base n index s e b = record {
  linked = queue_page-IsList pl s.free (suc n) (omega arith) (upto n) out (record {
    chain = Chain-update s.page_list (suc n) _ s.free.head (upto n) out b.linked.chain;
    tail_is = b.linked.tail_is;
    distinct = b.linked.distinct;
  });
  bases = λ j h.
      rw (base-queue_page pl s.free (suc n) (omega arith) (suc j)) (elim (Bool-cases (j == n)) [
        | inl now ↦
            ground (
              arith,
              update_self s.page_list (suc n) (record (s.page_list (suc n)) { base = index }),
            )
        | inr old ↦ ground (
          arith,
          b.bases j,
          update_other s.page_list (suc n) (suc j) (record (s.page_list (suc n)) { base = index }),
        )
      ]);
}
  where
    pl : ℕ → MemPage
    pl = update s.page_list (suc n) (record (s.page_list (suc n)) { base = index })

    out : NotIn (suc n) (upto n)
    out = NotIn-upto (suc n) n (omega arith)

-- What the loop returns for pages from `base` up to `stop`: the index behind the last entry that
-- it wrote, and the state.
pub record Covers (base stop : ℕ) (out : Option (ℕ × Pages)) : Type 0 where
  pub count : ℕ
  pub state : Pages
  pub result : out ≡ some (suc count, state)
  pub built : Built base count state
  pub reaches : stop ≤ base + count * page_size
  pub no_more : base + count * page_size < stop + page_size

make_loop-end :
    (k base stop n index : ℕ) (s : Pages)
    → index ≡ base + n * page_size
    → index < stop + page_size
    → ltb index stop ≡ false
    → Built base n s
    → Covers base stop (make_loop (suc k) stop index (suc n) (suc n) s)
unfolding make_loop
make_loop-end k base stop n index s e near end b = record {
  count = n;
  state = s;
  result = rw end;
  built = b;
  reaches = ground arith;
  no_more = omega arith;
}

make_loop-Covers :
    (k base stop n index : ℕ) (s : Pages)
    → index ≡ base + n * page_size
    → stop + page_size ≤ 2 ^ 64
    → stop ≤ index + k * page_size
    → index < stop + page_size
    → Built base n s
    → Covers base stop (make_loop (suc k) stop index (suc n) (suc n) s)
unfolding make_loop
make_loop-Covers zero base stop n index s e small fuel near b =
    make_loop-end zero base stop n index s e near (ground arith) b
make_loop-Covers (suc k) base stop n index s e small fuel near b =
    elim (Bool-cases (ltb index stop)) [
      | inl more ↦
          let index' : (index + page_size) % 2 ^ 64 ≡ index + page_size = ground arith in
          rw more (
            rw index' (
              make_loop-Covers k base stop (suc n) (index + page_size)
                (make_page index (suc n) (suc n) s) (omega arith) small (omega arith) (ground arith)
                (make_page-Built base n index s e b)))
      | inr end ↦ make_loop-end (suc k) base stop n index s e near end b
    ]

-- On the state that `init_pages` leaves, `make_pages` makes the free list of the pages of the
-- region, entry `j + 1` for the page `j`, as many as cover it, and returns the next entry. The
-- region ends at least a page below 2 ^ 64, `base` is not 0, and the fuel is above the page count.
pub make_pages-Covers :
    (fuel base len : ℕ) (mem : ℕ → MemPage)
    → base ≢ 0
    → base + len + page_size ≤ 2 ^ 64
    → len ≤ fuel * page_size
    → let (physfree, s) = init_pages mem in
      Covers base (base + len) (make_pages (suc fuel) base len physfree s)
unfolding make_pages init_pages
make_pages-Covers fuel base len mem ne small enough =
    let skip : (base == 0) ≡ false = ground arith in
    let stop : (base + len) % 2 ^ 64 ≡ base + len = omega arith in
    rw (skip, stop)
      (make_loop-Covers fuel base (base + len) 0 base _ (omega arith) small (omega arith)
        (omega arith)
        (record {
          linked = record { chain = refl; tail_is = refl; distinct = tt };
          bases = λ j h. absurd (omega arith);
        }))

-- A region at address 0 is skipped whole.
pub make_pages-zero :
    (fuel len physfree : ℕ) (s : Pages) → make_pages fuel 0 len physfree s ≡ some (physfree, s)
unfolding make_pages
make_pages-zero fuel len physfree s = refl
