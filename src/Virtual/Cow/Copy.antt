-- ===== src/Virtual/Cow/Copy.antt =====
-- `map_page_COW`: the page of an address is copied to a fresh frame, which takes its place.
use my_sbuos.Base.{
  ℕ, zero, suc, ◌+◌, ◌*◌, ◌/◌, ◌%◌, ◌^◌, ◌≤◌, ◌<◌, ◌≡◌, refl, sym, ap, ◌∙◌, ◌≢◌, inl, inr, Option,
  none, some, arith, ◌==◌, if◌then◌else◌, Bool-cases, ◌>>=◌, ==_iff, update, update_self,
  update_other, subst,
}
use Prim.Native.Nat.{bit_and}
use my_sbuos.Pages.{page_size}
use my_sbuos.Paging.{table_index, frame_mask, set_word}
use my_sbuos.Paging.Frames.{table_index-mod}
use my_sbuos.Paging.Walk.{walk, Levels}
use my_sbuos.Paging.Map.{leaf-Levels}
use my_sbuos.Paging.Keep.{walk-kept}
use my_sbuos.Virtual.{Space, translate, read_word, write_word}
use my_sbuos.Virtual.Present.{not_even}
use my_sbuos.Virtual.Cow.{save_words, restore_words}

-- All words of a page are reached by one walk.
pub walk-page :
    (m : ℕ → ℕ) (root virt i : ℕ)
    → virt % 4096 ≡ 0
    → i < 512
    → walk 4 m root (virt + 8 * i) ≡ walk 4 m root virt
walk-page m root virt i aligned hi = rw (
  table_index-mod 4 (virt + 8 * i) ∙ at4 ∙ sym (table_index-mod 4 virt),
  table_index-mod 3 (virt + 8 * i) ∙ at3 ∙ sym (table_index-mod 3 virt),
  table_index-mod 2 (virt + 8 * i) ∙ at2 ∙ sym (table_index-mod 2 virt),
  table_index-mod 1 (virt + 8 * i) ∙ at1 ∙ sym (table_index-mod 1 virt),
)
  where
    at4 : (virt + 8 * i) / 2 ^ 39 % 512 ≡ virt / 2 ^ 39 % 512
    at4 = omega (arith, aligned, hi)

    at3 : (virt + 8 * i) / 2 ^ 30 % 512 ≡ virt / 2 ^ 30 % 512
    at3 = omega (arith, aligned, hi)

    at2 : (virt + 8 * i) / 2 ^ 21 % 512 ≡ virt / 2 ^ 21 % 512
    at2 = omega (arith, aligned, hi)

    at1 : (virt + 8 * i) / 2 ^ 12 % 512 ≡ virt / 2 ^ 12 % 512
    at1 = omega (arith, aligned, hi)

-- The words of the page at `virt` stand in the frame `f`.
pub translate-page :
    (m : ℕ → ℕ) (root virt slot f i : ℕ)
    → walk 4 m root virt ≡ some slot
    → m slot % 2 ≡ 1
    → bit_and (m slot) frame_mask ≡ f
    → virt % 4096 ≡ 0
    → i < 512
    → translate m root (virt + 8 * i) ≡ some (f + 8 * i)
unfolding translate
translate-page m root virt slot f i w odd is aligned hi =
    let rest : (virt + 8 * i) % page_size ≡ 8 * i = omega arith in
    ap
      (λ (o : Option ℕ). o >>= λ a.
        if m a % 2 == 0 then none else some (bit_and (m a) frame_mask + (virt + 8 * i) % page_size))
      (walk-page m root virt i aligned hi ∙ w)
    ∙ rw (not_even (m slot) odd, is, rest)

-- `save_words` reads the words of the frame that the page stands for.
pub save_words-reads :
    (n i virt slot f : ℕ) (temp : ℕ → ℕ) (s : Space)
    → walk 4 s.machine.memory s.cr3 virt ≡ some slot
    → s.machine.memory slot % 2 ≡ 1
    → bit_and (s.machine.memory slot) frame_mask ≡ f
    → virt % 4096 ≡ 0
    → i + n ≤ 512
    → (saved : ℕ → ℕ) × (save_words n virt i temp s ≡ some saved)
      × ((j : ℕ) → j < i → saved j ≡ temp j)
      × ((j : ℕ) → i ≤ j → j < i + n → saved j ≡ s.machine.memory (f + 8 * j))
unfolding save_words read_word
save_words-reads zero i virt slot f temp s w odd is aligned fits =
    (temp, refl, λ j lt. refl, λ j a b. absurd (omega arith))
save_words-reads (suc n) i virt slot f temp s w odd is aligned fits =
    let word = s.machine.memory (f + 8 * i) in
    let r =
      save_words-reads n (suc i) virt slot f (update temp i word) s w odd is aligned
        (omega arith) in
    let t = translate-page s.machine.memory s.cr3 virt slot f i w odd is aligned (omega arith) in
    rw t (
      r.0,
      r.1,
      λ j lt. r.2 j (omega arith) ∙ update_other temp i j word (omega arith),
      λ j a b. elim (Bool-cases (j == i)) [
        | inl e ↦
            let same : j ≡ i = (==_iff _ _).0 e in
            subst (λ q. r.0 q ≡ s.machine.memory (f + 8 * q)) (sym same)
              (r.2 i (omega arith) ∙ update_self temp i word)
        | inr e ↦ r.3 j (ground (arith, e, a)) (omega arith)
      ],
    )

-- A write outside the three upper levels keeps the walk of every page.
pub write-walk :
    (level m : ℕ → ℕ) (root virt slot leaf i v : ℕ)
    → Levels level m
    → level root ≡ 4
    → table_index 4 virt ≢ 510
    → level leaf ≡ 1
    → i < 512
    → walk 4 m root virt ≡ some slot
    → walk 4 (update m (leaf + 8 * i) v) root virt ≡ some slot
write-walk level m root virt slot leaf i v h at special one hi w =
    walk-kept 4 virt root slot level m (update m (leaf + 8 * i) v) leaf i level h
      (leaf-Levels level m leaf i v h one hi) (λ t e. refl) one hi
      (λ t j used hj nz far. update_other m (leaf + 8 * i) (t + 8 * j) v far) at special w

-- `restore_words` writes the words to the frame that the page stands for, and nothing else.
pub restore_words-writes :
    (n i virt slot f : ℕ) (level temp : ℕ → ℕ) (s : Space)
    → Levels level s.machine.memory
    → level s.cr3 ≡ 4
    → table_index 4 virt ≢ 510
    → level f ≡ 1
    → ((j : ℕ) → j < 512 → slot ≢ f + 8 * j)
    → walk 4 s.machine.memory s.cr3 virt ≡ some slot
    → s.machine.memory slot % 2 ≡ 1
    → bit_and (s.machine.memory slot) frame_mask ≡ f
    → virt % 4096 ≡ 0
    → i + n ≤ 512
    → (m' : ℕ → ℕ) × (restore_words n virt i temp s
        ≡ some (record s { machine = record s.machine { memory = m' } }))
      × ((j : ℕ) → i ≤ j → j < i + n → m' (f + 8 * j) ≡ temp j)
      × ((a : ℕ) → ((j : ℕ) → i ≤ j → j < i + n → a ≢ f + 8 * j) → m' a ≡ s.machine.memory a)
      × (walk 4 m' s.cr3 virt ≡ some slot)
unfolding restore_words write_word set_word
restore_words-writes zero i virt slot f level temp s h at special one apart w odd is aligned fits =
    (s.machine.memory, refl, λ j a b. absurd (omega arith), λ a far. refl, w)
restore_words-writes (suc n) i virt slot f level temp s h at special one apart w odd is aligned
      fits =
    let m = s.machine.memory in
    let hi : i < 512 = omega arith in
    let m1 = update m (f + 8 * i) (temp i) in
    let s1 : Space = record s { machine = record s.machine { memory = m1 } } in
    let kept : m1 slot ≡ m slot = update_other m (f + 8 * i) slot (temp i) (apart i hi) in
    let r =
      restore_words-writes n (suc i) virt slot f level temp s1
        (leaf-Levels level m f i (temp i) h one hi) at special one apart
        (write-walk level m s.cr3 virt slot f i (temp i) h at special one hi w)
        (ap (λ e. e % 2) kept ∙ odd) (ap (λ e. bit_and e frame_mask) kept ∙ is) aligned
        (omega arith) in
    let t = translate-page m s.cr3 virt slot f i w odd is aligned hi in
    rw t (
      r.0,
      r.1,
      λ j a b. elim (Bool-cases (j == i)) [
        | inl e ↦
            subst (λ q. r.0 (f + 8 * q) ≡ temp q) (sym ((==_iff _ _).0 e))
              (r.3 (f + 8 * i) (λ q c d z. omega (arith, c, z))
                ∙ update_self m (f + 8 * i) (temp i))
        | inr e ↦ r.2 j (ground (arith, e, a)) (omega arith)
      ],
      λ a far.
          r.3 a (λ j c d. far j (omega arith) (omega arith))
          ∙ update_other m (f + 8 * i) a (temp i) (far i (omega arith) (omega arith)),
      r.4,
    )
