-- ===== src/Tar/Read.antt =====
-- `read_to_buffer`: one line of an open file.
use my_sbuos.Base.{
  ℕ, zero, suc, ◌+◌, ◌-◌, ◌%◌, ◌^◌, ◌≤◌, ◌<◌, ◌≡◌, refl, ap, ap₂, ◌∙◌, ◌⊎◌, inl, inr, Bool, true,
  false, ◌||◌, List, [], ◌∷◌, ◌++◌, arith, leb, ◌==◌, if◌then◌else◌, Bool-cases, length, update,
  update_self, update_other, Holds, Holds-agree, subst,
}
use my_sbuos.Process.{FileDesc}
use my_sbuos.Tar.{read_loop, read_to_buffer}

-- The part of `xs` that is read: up to `n` bytes, with the newline that ends it.
abbrev pub line : (n : ℕ) → List ℕ → List ℕ
line zero xs = []
line (suc n) [] = []
line (suc n) (x ∷ xs) = if x == 10 then x ∷ [] else x ∷ line n xs

abbrev pub ends_line : (n : ℕ) → List ℕ → Bool
ends_line zero xs = false
ends_line (suc n) [] = false
ends_line (suc n) (x ∷ xs) = (x == 10) || ends_line n xs

-- The number returned counts the zero only when no newline ends the text.
abbrev pub count : (n : ℕ) → List ℕ → ℕ
count n xs = if ends_line n xs then length (line n xs) else suc (length (line n xs))

length-line : (n : ℕ) (xs : List ℕ) → length (line n xs) ≤ n
length-line zero xs = omega arith
length-line (suc n) [] = omega arith
length-line (suc n) (x ∷ xs) = ground (arith, length-line n xs)

-- The result of a read: the text with a zero behind it stands at `buffer`, and nothing else changed.
pub record IsRead (m m' : ℕ → ℕ) (buffer : ℕ) (text : List ℕ) : Type 0 where
  pub held : Holds m' buffer (text ++ 0 ∷ [])
  pub others : (j : ℕ) → (j < buffer) ⊎ (buffer + length text < j) → m' j ≡ m j

result :
    {a a' b b' : ℕ} {m : ℕ → ℕ} → a ≡ a' → b ≡ b' → ◌≡◌ {A = ℕ × ℕ × (ℕ → ℕ)} (a, b, m) (a', b', m)
result {m = m} e d = ap₂ (λ (u v : ℕ). (u, v, m)) e d

read_loop-line :
    (left file file_size buffer size_read offset : ℕ) (xs : List ℕ) (m : ℕ → ℕ)
    → Holds m (file + offset) xs
    → offset + length xs ≡ file_size
    → (buffer + size_read + suc left ≤ file + offset) ⊎ (file + file_size ≤ buffer + size_read)
    → (m' : ℕ → ℕ) × (read_loop left file file_size buffer size_read offset m
        ≡ (size_read + count left xs, offset + length (line left xs), m'))
      × IsRead m m' (buffer + size_read) (line left xs)
unfolding read_loop
read_loop-line zero file file_size buffer size_read offset xs m held size apart = (
  update m (buffer + size_read) 0,
  result (omega arith) (omega arith),
  record {
    held = (update_self m (buffer + size_read) 0, tt);
    others = λ j o. update_other m (buffer + size_read) j 0 (omega arith);
  },
)
read_loop-line (suc left) file file_size buffer size_read offset [] m held size apart =
    let done : leb file_size offset ≡ true = ground arith in
    (
      update m (buffer + size_read) 0,
      rw done (result (omega arith) (omega arith)),
      record {
        held = (update_self m (buffer + size_read) 0, tt);
        others = λ j o. update_other m (buffer + size_read) j 0 (omega arith);
      },
    )
read_loop-line (suc left) file file_size buffer size_read offset (x ∷ xs) m held size apart =
    let goes : leb file_size offset ≡ false = ground arith in
    elim (Bool-cases (x == 10)) [
      | inl newline ↦
          let m1 = update m (buffer + size_read) x in
          let m2 = update m1 (buffer + suc size_read) 0 in
          rw (goes, held.0, newline)
            (
              m2,
              result (omega arith) (omega arith),
              record {
                held = (
                  update_other m1 (buffer + suc size_read) (buffer + size_read) 0 (omega arith)
                      ∙ update_self m (buffer + size_read) x,
                  (
                    subst (λ j. m2 j ≡ 0) (omega arith) (update_self m1 (buffer + suc size_read) 0),
                    tt,
                  ),
                );
                others = λ j o.
                    update_other m1 (buffer + suc size_read) j 0 (omega arith)
                    ∙ update_other m (buffer + size_read) j x (omega arith);
              },
            )
      | inr plain ↦
          let m1 = update m (buffer + size_read) x in
          let kept : Holds m1 (file + suc offset) xs =
            subst (λ q. Holds m1 q xs) (omega arith)
              (Holds-agree m m1 (suc (file + offset)) xs
                (λ j a b. update_other m (buffer + size_read) j x (omega arith)) held.1) in
          let r =
            read_loop-line left file file_size buffer (suc size_read) (suc offset) xs m1 kept
              (omega arith) (omega arith) in
          rw (goes, held.0, plain)
            (
              r.0,
              r.1 ∙ result (ground arith) (omega arith),
              record {
                held = (
                  r.2.others (buffer + size_read) (inl (omega arith))
                      ∙ update_self m (buffer + size_read) x,
                  subst (λ q. Holds r.0 q (line left xs ++ 0 ∷ [])) (omega arith) r.2.held,
                );
                others = λ j o.
                    r.2.others j (omega arith)
                    ∙ update_other m (buffer + size_read) j x (omega arith);
              },
            )
    ]

-- When the file's bytes from its offset on are `xs`, one of them at least, `size` is positive and the
-- buffer's `size` bytes lie outside the file, `read_to_buffer` ends; it writes the next line, cut at
-- `size - 1` bytes, with a zero behind it and nothing else, moves the offset behind it, and returns
-- the number of bytes of the line, or one more when no newline ends the text.
pub read_to_buffer-line :
    (d : FileDesc) (buffer size : ℕ) (x : ℕ) (xs : List ℕ) (m : ℕ → ℕ)
    → Holds m (d.file_start_address + d.file_offset) (x ∷ xs)
    → d.file_offset + length (x ∷ xs) ≡ d.file_size
    → 0 < size
    → size < 2 ^ 64
    → (buffer + size ≤ d.file_start_address + d.file_offset)
      ⊎ (d.file_start_address + d.file_size ≤ buffer)
    → (m' : ℕ → ℕ) × (read_to_buffer d buffer size m ≡ (
      count (size - 1) (x ∷ xs),
      record d { file_offset = d.file_offset + length (line (size - 1) (x ∷ xs)) },
      m',
    ))
      × IsRead m m' buffer (line (size - 1) (x ∷ xs))
unfolding read_to_buffer
read_to_buffer-line d buffer size x xs m held whole some_room wide apart =
    let goes : leb d.file_size d.file_offset ≡ false = ground arith in
    let rounds : (size + (2 ^ 64 - 1)) % 2 ^ 64 ≡ size - 1 = omega arith in
    let r =
      read_loop-line (size - 1) d.file_start_address d.file_size buffer 0 d.file_offset (x ∷ xs) m
        held whole (omega arith) in
    rw (rounds, goes)
      (
        r.0,
        ap (λ (q : ℕ × ℕ × (ℕ → ℕ)). (q.0, record d { file_offset = q.1 }, q.2))
            (r.1 ∙ result (omega arith) refl),
        subst (λ q. IsRead m r.0 q (line (size - 1) (x ∷ xs))) (omega arith) r.2,
      )
