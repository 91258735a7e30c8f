-- ===== src/Syscall/Memory.antt =====
-- `do_break` and `do_write`.
use my_sbuos.Base.{
  true, ℕ, zero, suc, ◌+◌, ◌≤◌, ◌<◌, ◌≡◌, refl, sym, ap, ◌∙◌, ◌≢◌, ◌⊎◌, inl, inr, false, List, [],
  ◌∷◌, arith, leb, ◌==◌, if◌then◌else◌, Bool-cases, leb→le, ne→==, ==_iff, length, update,
  update_self, update_other, subst,
}
use my_sbuos.Text.Strings.{IsString}
use my_sbuos.Process.{Kernel, Pcb}
use my_sbuos.Console.{Console, write_k}
use my_sbuos.Syscall.{heap_top, failed, do_break, write_loop, do_write}

abbrev pub break_of : Kernel → ℕ
break_of k = (k.pcbs k.active).user_brk_point

-- What `do_break` promises: it refuses an address at or above the top and changes nothing, or it
-- returns the break, which is the one asked for unless that was 0.
abbrev pub BreakAnswer : ℕ → Kernel → ℕ × Kernel → Type 0
BreakAnswer a k r =
    ((heap_top ≤ a) × (r.0 ≡ failed) × (r.1 ≡ k))
    ⊎ ((a < heap_top) × (r.0 ≡ break_of r.1) × (break_of r.1 ≡ (if a == 0 then break_of k else a)))

-- A break below the top of the heap stays below it; `do_break` refuses an address at or above the top
-- and changes nothing, or returns the break of the active process, which is the address asked for
-- unless that is 0; the blocks of the other processes do not change.
pub do_break-BreakAnswer :
    (a : ℕ) (k : Kernel)
    → break_of k < heap_top
    → (break_of (do_break a k).1 < heap_top)
      × BreakAnswer a k (do_break a k)
      × ((j : ℕ) → j ≢ k.active → (do_break a k).1.pcbs j ≡ k.pcbs j)
unfolding do_break
do_break-BreakAnswer a k h = elim (Bool-cases (a == 0)) [
  | inl e ↦ rw e (h, inr (omega (arith, (==_iff _ _).0 e), refl, refl), λ j ne. refl)
  | inr ne ↦ elim (Bool-cases (leb heap_top a)) [
    | inl big ↦ rw (ne, big) (h, inl (leb→le _ _ big, refl, refl), λ j o. refl)
    | inr small ↦
        let fits : a < heap_top = ground arith in
        let block : Pcb = record (k.pcbs k.active) { user_brk_point = a } in
        let at : (update k.pcbs k.active block k.active).user_brk_point ≡ a =
          ap (λ (p : Pcb). p.user_brk_point) (update_self k.pcbs k.active block) in
        rw (ne, small)
          (rw at fits, inr (fits, sym at, at), λ j o. update_other k.pcbs k.active j block o)
  ]
]

-- the three answers as equations
pub do_break-zero : (k : Kernel) → ◌≡◌ {A = ℕ × Kernel} (do_break 0 k) (break_of k, k)
unfolding do_break
do_break-zero k = refl

-- The kernel with the break of the active process set.
abbrev pub with_break : (b : ℕ) → Kernel → Kernel
with_break b k = record k {
  pcbs = update k.pcbs k.active (record (k.pcbs k.active) { user_brk_point = b });
}

pub do_break-set :
    (a : ℕ) (k : Kernel)
    → 0 < a
    → a < heap_top
    → ◌≡◌ {A = ℕ × Kernel} (do_break a k) (a, with_break a k)
unfolding do_break
do_break-set a k pos fits =
    let ne : (a == 0) ≡ false = ground arith in
    let small : leb heap_top a ≡ false = ground arith in rw (ne, small) refl

pub do_break-refuse :
    (a : ℕ) (k : Kernel) → 0 < a → heap_top ≤ a → ◌≡◌ {A = ℕ × Kernel} (do_break a k) (failed, k)
unfolding do_break
do_break-refuse a k pos big =
    let ne : (a == 0) ≡ false = ground arith in
    let past : leb heap_top a ≡ true = ground arith in rw (ne, past)

-- the characters written in order
abbrev pub write_all : List ℕ → Console → Console
write_all [] s = s
write_all (x ∷ xs) s = write_all xs (write_k x s)

abbrev pub take : ℕ → List ℕ → List ℕ
take zero xs = []
take (suc n) [] = []
take (suc n) (x ∷ xs) = x ∷ take n xs

write_loop-take :
    (left str i : ℕ) (m : ℕ → ℕ) (xs : List ℕ) (s : Console)
    → IsString m (str + i) xs
    → write_loop left m str i s ≡ (i + length (take left xs), write_all (take left xs) s)
unfolding write_loop
write_loop-take zero str i m xs s h = ap (λ (n : ℕ). (n, s)) (omega arith)
write_loop-take (suc n) str i m [] s h = rw h.held.0 (ap (λ (n : ℕ). (n, s)) (omega arith))
write_loop-take (suc n) str i m (x ∷ xs) s h =
    let more : (x == 0) ≡ false = ne→== x 0 h.bytes.0.0 in
    rw (h.held.0, more)
      (write_loop-take n str (suc i) m xs (write_k x s) (
          subst (λ p. IsString m p xs) (omega arith)
            (record { bytes = h.bytes.1; held = h.held.1 }))
        ∙ ap (λ (c : ℕ). (c, write_all (take n xs) (write_k x s))) (omega arith))

-- To descriptor 1 `do_write` writes the string's characters in order, `size` of them at most, and
-- returns their number.
pub do_write-take :
    (m : ℕ → ℕ) (buffer size : ℕ) (xs : List ℕ) (s : Console)
    → IsString m buffer xs
    → do_write m 1 buffer size s ≡ (length (take size xs), write_all (take size xs) s)
unfolding do_write
do_write-take m buffer size xs s h =
    write_loop-take size buffer 0 m xs s (subst (λ p. IsString m p xs) (omega arith) h)
    ∙ ap (λ (c : ℕ). (c, write_all (take size xs) s)) (omega arith)
