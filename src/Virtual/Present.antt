-- ===== src/Virtual/Present.antt =====
-- `map_page` at an address whose tables exist.
use my_sbuos.Base.{
  ℕ, suc, ◌+◌, ◌*◌, ◌%◌, ◌^◌, ◌<◌, ◌≡◌, refl, ap, ◌∙◌, inl, inr, false, Option, some, arith, ◌==◌,
  Bool-cases,
}
use Prim.Native.Nat.{bit_and, bit_or}
use my_sbuos.Pages.{page_size}
use my_sbuos.Paging.{table_index, frame_mask, set_word}
use my_sbuos.Paging.Frames.{table_index-below}
use my_sbuos.Paging.Walk.{walk}
use my_sbuos.Paging.Keep.{absent-no, present-walk}
use my_sbuos.Virtual.{
  Space, translate, read_word, write_word, self_table, next_table, descend, map_page,
}
use my_sbuos.Virtual.Pointers.{
  pointer, index-pointer_4, index-pointer_3, index-pointer_2, index-pointer_1, next_table-pointer,
}

-- The word `i` of `t` is present and refers to `u`.
abbrev pub Hop : (m : ℕ → ℕ) (t i u : ℕ) → Type 0
Hop m t i u = (m (t + 8 * i) % 2 ≡ 1) × (bit_and (m (t + 8 * i)) frame_mask ≡ u)

-- The three tables below the root on the way to `virt`.
pub record Chained (m : ℕ → ℕ) (root virt slot : ℕ) : Type 0 where
  pub third : ℕ
  pub second : ℕ
  pub first : ℕ
  pub hop_4 : Hop m root (table_index 4 virt) third
  pub hop_3 : Hop m third (table_index 3 virt) second
  pub hop_2 : Hop m second (table_index 2 virt) first
  pub ends : slot ≡ first + 8 * table_index 1 virt

odd_of : (e : ℕ) → (e % 2 == 0) ≡ false → e % 2 ≡ 1
odd_of e h = ground arith

pub walk-Chained :
    (m : ℕ → ℕ) (root virt slot : ℕ) → walk 4 m root virt ≡ some slot → Chained m root virt slot
walk-Chained m root virt slot w =
    let e4 = m (root + 8 * table_index 4 virt) in
    let t3 = bit_and e4 frame_mask in
    let e3 = m (t3 + 8 * table_index 3 virt) in
    let t2 = bit_and e3 frame_mask in
    let e2 = m (t2 + 8 * table_index 2 virt) in
    let t1 = bit_and e2 frame_mask in
    elim (Bool-cases (e4 % 2 == 0)) [
      | inl gone ↦ absurd (absent-no (e4 % 2 == 0) (walk 3 m t3 virt) gone w)
      | inr p4 ↦
          let w3 = present-walk (e4 % 2 == 0) (walk 3 m t3 virt) p4 w in
          elim (Bool-cases (e3 % 2 == 0)) [
            | inl gone ↦ absurd (absent-no (e3 % 2 == 0) (walk 2 m t2 virt) gone w3)
            | inr p3 ↦
                let w2 = present-walk (e3 % 2 == 0) (walk 2 m t2 virt) p3 w3 in
                elim (Bool-cases (e2 % 2 == 0)) [
                  | inl gone ↦ absurd (absent-no (e2 % 2 == 0) (walk 1 m t1 virt) gone w2)
                  | inr p2 ↦
                      let w1 = present-walk (e2 % 2 == 0) (walk 1 m t1 virt) p2 w2 in
                      record {
                        third = t3;
                        second = t2;
                        first = t1;
                        hop_4 = (odd_of e4 p4, refl);
                        hop_3 = (odd_of e3 p3, refl);
                        hop_2 = (odd_of e2 p2, refl);
                        ends = ground (arith, w1);
                      }
                ]
          ]
    ]

pub not_even : (e : ℕ) → e % 2 ≡ 1 → (e % 2 == 0) ≡ false
not_even e h = ground arith

-- Four hops translate a pointer to the last frame.
pub translate-pointer :
    (m : ℕ → ℕ) (root b c d x t3 t2 t1 f : ℕ)
    → b < 512
    → c < 512
    → d < 512
    → x < 4096
    → Hop m root 510 t3
    → Hop m t3 b t2
    → Hop m t2 c t1
    → Hop m t1 d f
    → translate m root (pointer b c d + x) ≡ some (f + x)
unfolding translate
translate-pointer m root b c d x t3 t2 t1 f hb hc hd hx h4 h3 h2 h1 =
    let rest : (pointer b c d + x) % page_size ≡ x = omega arith in
    rw (
      index-pointer_4 b c d x hb hc hd hx,
      not_even _ h4.0,
      h4.1,
      index-pointer_3 b c d x hb hc hd hx,
      not_even _ h3.0,
      h3.1,
      index-pointer_2 b c d x hb hc hd hx,
      not_even _ h2.0,
      h2.1,
      index-pointer_1 b c d x hb hc hd hx,
      not_even _ h1.0,
      h1.1,
      rest,
    )

-- The entry 510 of the root refers to the root.
abbrev pub SelfMapped : (m : ℕ → ℕ) (root : ℕ) → Type 0
SelfMapped m root = Hop m root 510 root

descend-present :
    (n virt table a : ℕ) (s : Space)
    → translate s.machine.memory s.cr3 (table + 8 * table_index (suc (suc n)) virt) ≡ some a
    → s.machine.memory a % 2 ≡ 1
    → descend (suc n) virt table false s
      ≡ descend n virt (next_table table (table_index (suc (suc n)) virt)) false s
unfolding descend read_word
descend-present n virt table a s t odd =
    let there : (s.machine.memory a == 0) ≡ false = ground (arith, odd) in rw (t, there)

descend-zero :
    (virt table : ℕ) (s : Space)
    → ◌≡◌ {A = Option (ℕ × Space)} (descend 0 virt table false s) (some (table, s))
unfolding descend
descend-zero virt table s = refl

-- When the root refers to itself and the tables of `virt` exist, `map_page` ends, finds them through
-- the root, writes the entry at the very word where the processor's walk of `virt` ends and changes
-- nothing else.
pub map_page-walk :
    (phys virt flags slot : ℕ) (s : Space)
    → SelfMapped s.machine.memory s.cr3
    → walk 4 s.machine.memory s.cr3 virt ≡ some slot
    → map_page phys virt flags s
      ≡ some (
        (virt + page_size) % 2 ^ 64,
        record s { machine = set_word slot (bit_or (bit_and phys frame_mask) flags) s.machine },
      )
unfolding map_page write_word
map_page-walk phys virt flags slot s self w =
    let m = s.machine.memory in
    let r = s.cr3 in
    let k = walk-Chained m r virt slot w in
    let i4 = table_index 4 virt in
    let i3 = table_index 3 virt in
    let i2 = table_index 2 virt in
    let i1 = table_index 1 virt in
    let h4 = table_index-below 4 virt in
    let h3 = table_index-below 3 virt in
    let h2 = table_index-below 2 virt in
    let h1 = table_index-below 1 virt in
    let small : 510 < 512 = omega arith in
    let at4 =
      translate-pointer m r 510 510 510 (8 * i4) r r r r small small small (omega arith) self self
        self self in
    let at3 =
      translate-pointer m r 510 510 i4 (8 * i3) r r r k.third small small h4 (omega arith) self self
        self k.hop_4 in
    let at2 =
      translate-pointer m r 510 i4 i3 (8 * i2) r r k.third k.second small h4 h3 (omega arith) self
        self k.hop_4 k.hop_3 in
    let at1 =
      translate-pointer m r i4 i3 i2 (8 * i1) r k.third k.second k.first h4 h3 h2 (omega arith) self
        k.hop_4 k.hop_3 k.hop_2 in
    let d4 = descend-present 2 virt self_table (r + 8 * i4) s at4 k.hop_4.0 in
    let n4 = next_table-pointer 510 510 i4 small small h4 in
    let d3 = descend-present 1 virt (pointer 510 510 i4) (k.third + 8 * i3) s at3 k.hop_3.0 in
    let n3 = next_table-pointer 510 i4 i3 small h4 h3 in
    let d2 = descend-present 0 virt (pointer 510 i4 i3) (k.second + 8 * i2) s at2 k.hop_2.0 in
    let n2 = next_table-pointer i4 i3 i2 h4 h3 h2 in
    let next : (n t u : ℕ) → t ≡ u → descend n virt t false s ≡ descend n virt u false s =
      λ n t u e. ap (λ v. descend n virt v false s) e in
    let down : descend 3 virt self_table false s ≡ some (pointer i4 i3 i2, s) =
      d4
      ∙ next 2 _ _ n4
      ∙ d3
      ∙ next 1 _ _ n3
      ∙ d2
      ∙ next 0 _ _ n2
      ∙ descend-zero virt (pointer i4 i3 i2) s in
    rw (down, at1, k.ends)
