-- ===== src/Virtual/Cow/Private.antt =====
-- `map_page_COW`: the page of an address is copied to a fresh frame, which takes its place.
use my_sbuos.Base.{ℕ, ◌+◌, ◌*◌, ◌<◌, ◌≡◌, ◌≢◌, Option, some}
use my_sbuos.Virtual.{Space, translate}

-- The memory after the copy of the page at `virt`, and the words left in the buffer of the copy.
pub record Private (f virt slot old : ℕ) (s : Space) (out : Option ((ℕ → ℕ) × Space)) : Type 0 where
  pub memory : ℕ → ℕ
  pub temp_page : ℕ → ℕ
  pub result : out ≡ some (temp_page, record s { machine = record s.machine { memory = memory } })
  pub reached : (j : ℕ) → j < 512 → translate memory s.cr3 (virt + 8 * j) ≡ some (f + 8 * j)
  pub entry : memory slot ≡ f + 7
  pub copied : (j : ℕ) → j < 512 → memory (f + 8 * j) ≡ s.machine.memory (old + 8 * j)
  pub shared_kept : (j : ℕ) → j < 512 → memory (old + 8 * j) ≡ s.machine.memory (old + 8 * j)
  pub saved : (j : ℕ) → j < 512 → temp_page j ≡ s.machine.memory (old + 8 * j)
  pub others :
      (a : ℕ) → a ≢ slot → ((j : ℕ) → j < 512 → a ≢ f + 8 * j) → memory a ≡ s.machine.memory a
