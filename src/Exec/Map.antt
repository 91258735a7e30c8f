-- ===== src/Exec/Map.antt =====
-- `mem_map_file` puts a segment into the memory.
use my_sbuos.Base.{
  ℕ, zero, suc, ◌+◌, ◌-◌, ◌≤◌, ◌<◌, ◌≡◌, refl, ◌∙◌, ◌⊎◌, inl, List, [], ◌∷◌, ◌++◌, arith, length,
  length-append, update, update_self, update_other, Holds, Holds-agree, Holds-append, subst,
}
use my_sbuos.Exec.{copy_bytes, clear_bytes, mem_map_file}

abbrev pub zeros : ℕ → List ℕ
zeros zero = []
zeros (suc n) = 0 ∷ zeros n

length-zeros : (n : ℕ) → length (zeros n) ≡ n
length-zeros zero = refl
length-zeros (suc n) = omega (arith, length-zeros n)

-- The memory after a write of `xs` at `p`.
pub record Written (p : ℕ) (xs : List ℕ) (m m' : ℕ → ℕ) : Type 0 where
  pub held : Holds m' p xs
  pub others : (j : ℕ) → (j < p) ⊎ (p + length xs ≤ j) → m' j ≡ m j

clear_bytes-Written :
    (left dst i : ℕ) (m : ℕ → ℕ) → Written (dst + i) (zeros left) m (clear_bytes left dst i m)
unfolding clear_bytes
clear_bytes-Written zero dst i m = record { held = tt; others = λ j o. refl }
clear_bytes-Written (suc n) dst i m =
    let m1 = update m (dst + i) 0 in
    let r = clear_bytes-Written n dst (suc i) m1 in
    record {
      held = (
        r.others (dst + i) (inl (omega arith)) ∙ update_self m (dst + i) 0,
        subst (λ q. Holds (clear_bytes n dst (suc i) m1) q (zeros n)) (omega arith) r.held,
      );
      others = λ j o. r.others j (omega arith) ∙ update_other m (dst + i) j 0 (omega arith);
    }

copy_bytes-Written :
    (left dst src i : ℕ) (xs : List ℕ) (m : ℕ → ℕ)
    → length xs ≡ left
    → Holds m (src + i) xs
    → (dst + i + left ≤ src + i) ⊎ (src + i + left ≤ dst + i)
    → Written (dst + i) xs m (copy_bytes left dst src i m)
unfolding copy_bytes
copy_bytes-Written zero dst src i [] m n h apart = record { held = tt; others = λ j o. refl }
copy_bytes-Written zero dst src i (x ∷ xs) m n h apart = absurd (omega arith)
copy_bytes-Written (suc k) dst src i [] m n h apart = absurd (omega arith)
copy_bytes-Written (suc k) dst src i (x ∷ xs) m n h apart =
    let m1 = update m (dst + i) x in
    let kept : Holds m1 (src + suc i) xs =
      subst (λ q. Holds m1 q xs) (omega arith)
        (Holds-agree m m1 (suc (src + i)) xs (λ j a b. update_other m (dst + i) j x (omega arith))
          h.1) in
    let r = copy_bytes-Written k dst src (suc i) xs m1 (omega arith) kept (omega arith) in
    rw h.0 (record {
      held = (
        r.others (dst + i) (inl (omega arith)) ∙ update_self m (dst + i) x,
        subst (λ q. Holds (copy_bytes k dst src (suc i) m1) q xs) (omega arith) r.held,
      );
      others = λ j o. r.others j (omega arith) ∙ update_other m (dst + i) j x (omega arith);
    })

-- When the file's bytes and the segment do not overlap and the file is no longer than the segment,
-- `mem_map_file` puts the file's bytes with zeros behind them at the segment and changes nothing else.
pub mem_map_file-Written :
    (file vaddr memsz : ℕ) (xs : List ℕ) (m : ℕ → ℕ)
    → Holds m file xs
    → length xs ≤ memsz
    → (vaddr + length xs ≤ file) ⊎ (file + length xs ≤ vaddr)
    → Written vaddr
        (xs ++ zeros (memsz - length xs))
        m
        (mem_map_file file vaddr memsz (length xs) m)
unfolding mem_map_file
mem_map_file-Written file vaddr memsz xs m h fits apart =
    let m1 = copy_bytes (length xs) vaddr file 0 m in
    let m2 = clear_bytes (memsz - length xs) vaddr (length xs) m1 in
    let c =
      copy_bytes-Written (length xs) vaddr file 0 xs m refl
        (subst (λ q. Holds m q xs) (omega arith) h) (omega arith) in
    let z = clear_bytes-Written (memsz - length xs) vaddr (length xs) m1 in
    let held1 : Holds m1 vaddr xs = subst (λ q. Holds m1 q xs) (omega arith) c.held in
    record {
      held =
          Holds-append m2 vaddr xs (zeros (memsz - length xs))
            (Holds-agree m1 m2 vaddr xs (λ j a b. z.others j (inl (omega arith))) held1) z.held;
      others = λ j o.
          z.others j (omega (arith, length-append xs (zeros (memsz - length xs))))
          ∙ c.others j (omega (arith, length-append xs (zeros (memsz - length xs))));
    }
