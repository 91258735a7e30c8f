-- ===== src/Pages/Chain.antt =====
-- A page list in memory stands for the list of its indices; `queue_page` appends, `dequeue_page`
-- takes the first.
use my_sbuos.Base.{
  ℕ, ◌≡◌, refl, sym, ap, ◌∙◌, false, ne→==, ◌≢◌, some, List, [], ◌∷◌, ◌++◌, arith, ◌==◌, update,
  update_other, NotIn, Distinct, Distinct-snoc,
}
use my_sbuos.Pages.{MemPage, Ends, set_next, dequeue_page, queue_page}

-- Following `next` from `h` leads through the indices `xs` to 0.
abbrev pub Chain : (ℕ → MemPage) → ℕ → List ℕ → Type 0
Chain pl h [] = h ≡ 0
Chain pl h (x ∷ xs) = (h ≡ x) × (x ≢ 0) × Chain pl (pl x).next xs

abbrev pub last : List ℕ → ℕ → ℕ
last [] d = d
last (x ∷ xs) d = last xs x

pub record IsList (pl : ℕ → MemPage) (e : Ends) (xs : List ℕ) : Type 0 where
  pub chain : Chain pl e.head xs
  pub tail_is : e.tail ≡ last xs 0
  pub distinct : Distinct xs

pub Chain-update :
    (pl : ℕ → MemPage) (i : ℕ) (v : MemPage) (h : ℕ) (xs : List ℕ)
    → NotIn i xs
    → Chain pl h xs
    → Chain (update pl i v) h xs
Chain-update pl i v h [] out c = c
Chain-update pl i v h (x ∷ xs) out c =
    (c.0, c.1, rw (update_other pl i x v (λ e. out.0 (sym e))) (Chain-update pl i v _ xs out.1 c.2))

last-snoc : (xs : List ℕ) (i d : ℕ) → last (xs ++ i ∷ []) d ≡ i
last-snoc [] i d = refl
last-snoc (x ∷ xs) i d = last-snoc xs i x

NotIn-last : (a x : ℕ) (xs : List ℕ) → NotIn a (x ∷ xs) → a ≢ last xs x
NotIn-last a x [] h = h.0
NotIn-last a x (y ∷ ys) h = NotIn-last a y ys h.1

-- A chain is extended by linking its last cell to `i`, when no other of its cells changes.
module _ (pl pl' : ℕ → MemPage) (i : ℕ) (ne : i ≢ 0) (ends : (pl' i).next ≡ 0) where
  Chain-snoc :
      (h x : ℕ) (xs : List ℕ)
      → (pl' (last xs x)).next ≡ i
      → ((j : ℕ) → j ≢ i → j ≢ last xs x → pl' j ≡ pl j)
      → NotIn i (x ∷ xs)
      → Distinct (x ∷ xs)
      → Chain pl h (x ∷ xs)
      → Chain pl' h ((x ∷ xs) ++ i ∷ [])
  Chain-snoc h x [] link same out d c = (c.0, c.1, (link, ne, ends))
  Chain-snoc h x (y ∷ ys) link same out d c = (
    c.0,
    c.1,
    rw (same x (λ e. out.0 (sym e)) (NotIn-last x y ys d.0))
        (Chain-snoc (pl x).next y ys link same out.1 d.1 c.2),
  )

module _ (pl : ℕ → MemPage) (e : Ends) (i : ℕ) (ne : i ≢ 0) where
  -- A page queued on a list that does not hold it becomes its last.
  pub queue_page-IsList :
      (xs : List ℕ)
      → NotIn i xs
      → IsList pl e xs
      → IsList (queue_page pl e i).0 (queue_page pl e i).1 (xs ++ i ∷ [])
  unfolding queue_page update
  queue_page-IsList [] out l =
      let head_0 : e.head ≡ 0 = l.chain in
      let tail_0 : e.tail ≡ 0 = l.tail_is in
      rw (head_0, tail_0)
        (record { chain = (refl, ne, ground arith); tail_is = refl; distinct = (tt, tt) })
  queue_page-IsList (x ∷ xs) out l =
      let busy : (e.head == 0) ≡ false = ne→== _ _ (λ z. l.chain.1 (sym l.chain.0 ∙ z)) in
      let pl' : ℕ → MemPage = set_next (set_next pl e.tail i) i 0 in
      rw busy (record {
        chain =
            Chain-snoc pl pl' i ne (ground arith) e.head x xs
              (ground (arith, l.tail_is, NotIn-last i x xs out))
              (λ j p q. ground (arith, l.tail_is)) out l.distinct l.chain;
        tail_is = sym (last-snoc xs i x);
        distinct = Distinct-snoc (x ∷ xs) i l.distinct out;
      })

  -- Only `next` of the queued page and of the old tail change.
  pub base-queue_page : (j : ℕ) → ((queue_page pl e i).0 j).base ≡ (pl j).base
  unfolding queue_page update
  base-queue_page j = ground arith

  pub queue_page_other :
      (j : ℕ) (xs : List ℕ) → IsList pl e xs → NotIn j xs → j ≢ i → (queue_page pl e i).0 j ≡ pl j
  unfolding queue_page update
  queue_page_other j [] l out p = ground arith
  queue_page_other j (x ∷ xs) l out p = ground (arith, NotIn-last j x xs out)

-- The first page of a list is taken, and the list keeps the others, whatever its tail is.
pub dequeue_page-Chain :
    (tail_at : ℕ) (pl : ℕ → MemPage) (e : Ends) (x : ℕ) (xs : List ℕ)
    → Chain pl e.head (x ∷ xs)
    → ((dequeue_page tail_at pl e).0 ≡ some x) × Chain pl (dequeue_page tail_at pl e).1.head xs
unfolding dequeue_page
dequeue_page-Chain tail_at pl e x xs c = rw busy (ap some c.0, rw c.0 c.2)
  where
    busy : (e.head == 0) ≡ false
    busy = ne→== _ _ (λ z. c.1 (sym c.0 ∙ z))

-- On an empty list the guard never holds, and index 0 is handed out.
pub dequeue_page-empty :
    (tail_at : ℕ) (pl : ℕ → MemPage) (e : Ends)
    → tail_at ≢ 0
    → e.head ≡ 0
    → (dequeue_page tail_at pl e).0 ≡ some 0
unfolding dequeue_page
dequeue_page-empty tail_at pl e ne l = ground arith

pub Chain-frame :
    (pl pl' : ℕ → MemPage) (h : ℕ) (xs : List ℕ)
    → ((j : ℕ) → ¬ NotIn j xs → pl' j ≡ pl j)
    → Chain pl h xs
    → Chain pl' h xs
Chain-frame pl pl' h [] s c = c
Chain-frame pl pl' h (x ∷ xs) s c = (
  c.0,
  c.1,
  rw (s x (λ o. o.0 refl)) (Chain-frame pl pl' (pl x).next xs (λ j o. s j (λ k. o k.1)) c.2),
)
