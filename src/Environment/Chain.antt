-- ===== src/Environment/Chain.antt =====
-- The chain of the nodes, and what linking a new one to its end makes of it.
use my_sbuos.Base.{
  ℕ, ◌≡◌, refl, sym, ap, ◌∙◌, ◌≢◌, inl, inr, List, [], ◌∷◌, ◌++◌, arith, ◌==◌, Bool-cases, ==_iff,
  NotIn, Distinct, update, update_self, update_other,
}
use my_sbuos.Environment.{VarList}

-- The nodes behind `p`, up to the null pointer.
abbrev pub Linked : (nodes : ℕ → VarList) (p : ℕ) → List ℕ → Type 0
Linked nodes p [] = (nodes p).next ≡ 0
Linked nodes p (a ∷ ns) = ((nodes p).next ≡ a) × (a ≢ 0) × Linked nodes a ns

abbrev pub last : ℕ → List ℕ → ℕ
last p [] = p
last p (a ∷ ns) = last a ns

pub NotIn-last : (q p : ℕ) (ns : List ℕ) → NotIn q (p ∷ ns) → q ≢ last p ns
NotIn-last q p [] h = h.0
NotIn-last q p (a ∷ ns) h = NotIn-last q a ns h.1

pub last-append : (p : ℕ) (ns : List ℕ) (a : ℕ) → last p (ns ++ a ∷ []) ≡ a
last-append p [] a = refl
last-append p (x ∷ ns) a = last-append x ns a

abbrev pub link : (nodes : ℕ → VarList) (tail new : ℕ) → VarList → ℕ → VarList
link nodes tail new v =
    let made = update nodes new v in update made tail (record (made tail) { next = new })

link-other :
    (nodes : ℕ → VarList) (tail new : ℕ) (v : VarList) (p : ℕ)
    → p ≢ tail
    → p ≢ new
    → link nodes tail new v p ≡ nodes p
link-other nodes tail new v p h k =
    update_other (update nodes new v) tail p _ h ∙ update_other nodes new p v k

pub Linked-link :
    (nodes : ℕ → VarList) (new : ℕ) (v : VarList) (p : ℕ) (ns : List ℕ)
    → new ≢ 0
    → v.next ≡ 0
    → NotIn new (p ∷ ns)
    → Distinct (p ∷ ns)
    → Linked nodes p ns
    → Linked (link nodes (last p ns) new v) p (ns ++ new ∷ [])
Linked-link nodes new v p [] some_place ends fresh distinct h =
    let made = update nodes new v in
    (
      ap (λ (n : VarList). n.next) (update_self made p (record (made p) { next = new })),
      some_place,
      ap (λ (n : VarList). n.next)
            (update_other made p new (record (made p) { next = new }) fresh.0
              ∙ update_self nodes new v)
          ∙ ends,
    )
Linked-link nodes new v p (a ∷ ns) some_place ends fresh distinct h = (
  ap (λ (n : VarList). n.next)
        (link-other nodes (last a ns) new v p (NotIn-last p a ns distinct.0) (λ e. fresh.0 (sym e)))
      ∙ h.0,
  h.1,
  Linked-link nodes new v a ns some_place ends fresh.1 distinct.1 h.2,
)

-- The names and values of the old nodes stay, and the new node has its own.
pub link-varname :
    (nodes : ℕ → VarList) (tail new : ℕ) (v : VarList) (a : ℕ)
    → a ≢ new
    → ((link nodes tail new v a).varname ≡ (nodes a).varname)
      × ((link nodes tail new v a).varval ≡ (nodes a).varval)
link-varname nodes tail new v a old =
    let made = update nodes new v in
    let same : made a ≡ nodes a = update_other nodes new a v old in
    elim (Bool-cases (a == tail)) [
      | inl e ↦
          let here = update_self made a (record (made a) { next = new }) in
          rw (sym ((==_iff a tail).0 e)) (
            ap (λ (n : VarList). n.varname) here ∙ ap (λ (n : VarList). n.varname) same,
            ap (λ (n : VarList). n.varval) here ∙ ap (λ (n : VarList). n.varval) same,
          )
      | inr ne ↦
          let there =
            update_other made tail a (record (made tail) { next = new })
              (λ e. ground (arith, ne, e)) in
          (
            ap (λ (n : VarList). n.varname) there ∙ ap (λ (n : VarList). n.varname) same,
            ap (λ (n : VarList). n.varval) there ∙ ap (λ (n : VarList). n.varval) same,
          )
    ]

pub link-new :
    (nodes : ℕ → VarList) (tail new : ℕ) (v : VarList) → new ≢ tail → link nodes tail new v new ≡ v
link-new nodes tail new v apart =
    let made = update nodes new v in
    update_other made tail new (record (made tail) { next = new }) apart ∙ update_self nodes new v
