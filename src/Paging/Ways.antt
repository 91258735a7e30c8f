-- ===== src/Paging/Ways.antt =====
-- The ways through the tables: two pages with one place are the same page.
use my_sbuos.Base.{
  ℕ, zero, suc, ◌+◌, ◌*◌, ◌/◌, ◌%◌, ◌^◌, ◌≡◌, refl, ap, ◌∙◌, ◌≢◌, inl, inr, Option, none, some,
  arith, ◌==◌, Bool-cases,
}
use Prim.Native.Nat.{bit_and}
use my_sbuos.Paging.{table_index, frame_mask}
use my_sbuos.Paging.Frames.{table_index-below, table_index-mod}
use my_sbuos.Paging.Walk.{walk, Levels}
use my_sbuos.Paging.Labels.{Labels}
use my_sbuos.Paging.Map.{special_level}
use my_sbuos.Paging.Keep.{absent-no, present-walk}

-- The label at which the walk from a label `a` ends.
pub way : (lvl a virt : ℕ) → ℕ
way zero a virt = a
way (suc zero) a virt = a
way (suc (suc l)) a virt = way (suc l) (512 * a + table_index (suc (suc l)) virt) virt

none_not : {x : ℕ} → ◌≡◌ {A = Option ℕ} none (some x) → ⊥
none_not e = absurd (cc)

-- A walk ends in the table that has the label of its way.
pub walk-way :
    (lvl virt table slot : ℕ) (level label m : ℕ → ℕ)
    → Levels level m
    → Labels level label m
    → level table ≡ lvl
    → table_index 4 virt ≢ 510
    → walk lvl m table virt ≡ some slot
    → (t : ℕ) × (level t ≡ 1)
      × (slot ≡ t + 8 * table_index 1 virt)
      × (label t ≡ way lvl (label table) virt)
unfolding way
walk-way zero virt table slot level label m h lab at special w = absurd (none_not w)
walk-way (suc zero) virt table slot level label m h lab at special w =
    (table, at, ground (arith, w), refl)
walk-way (suc (suc l)) virt table slot level label m h lab at special w =
    let j = table_index (suc (suc l)) virt in
    let hj = table_index-below (suc (suc l)) virt in
    let e = m (table + 8 * j) in
    elim (Bool-cases (e % 2 == 0)) [
      | inl absent ↦ absurd (absent-no _ (walk (suc l) m (bit_and e frame_mask) virt) absent w)
      | inr present ↦ elim (h.entry table j l at hj (special_level l virt special)) [
        | inl z ↦ absurd (ground (arith, present, z))
        | inr (odd, child) ↦
            let r =
              walk-way (suc l) virt (bit_and e frame_mask) slot level label m h lab child special
                (present-walk _ (walk (suc l) m (bit_and e frame_mask) virt) present w) in
            let down_one =
              lab table j l at hj (special_level l virt special) (λ z. omega (arith, odd, z)) in
            (r.0, r.1, r.2, r.3 ∙ ap (λ a. way (suc l) a virt) down_one)
      ]
    ]

-- The page number of an address, as far as the tables see it.
abbrev pub page_number : ℕ → ℕ
page_number virt = virt / 4096 % 2 ^ 36

-- Ways to one table by one index are ways of one page.
pub way-page :
    (a v w : ℕ)
    → way 4 a v ≡ way 4 a w
    → table_index 1 v ≡ table_index 1 w
    → page_number v ≡ page_number w
unfolding way
way-page a v w e i =
    let v4 : table_index 4 v ≡ v / 2 ^ 39 % 512 = table_index-mod 4 v in
    let v3 : table_index 3 v ≡ v / 2 ^ 30 % 512 = table_index-mod 3 v in
    let v2 : table_index 2 v ≡ v / 2 ^ 21 % 512 = table_index-mod 2 v in
    let v1 : table_index 1 v ≡ v / 2 ^ 12 % 512 = table_index-mod 1 v in
    let w4 : table_index 4 w ≡ w / 2 ^ 39 % 512 = table_index-mod 4 w in
    let w3 : table_index 3 w ≡ w / 2 ^ 30 % 512 = table_index-mod 3 w in
    let w2 : table_index 2 w ≡ w / 2 ^ 21 % 512 = table_index-mod 2 w in
    let w1 : table_index 1 w ≡ w / 2 ^ 12 % 512 = table_index-mod 1 w in
    omega (arith, e, i, v4, v3, v2, v1, w4, w3, w2, w1)
