-- ===== src/Interrupts/Fault.antt =====
-- A page fault on an address that is not mapped.
use my_sbuos.Base.{ℕ, ◌+◌, ◌%◌, ◌^◌, ◌≡◌, ◌≢◌, ◌⊎◌, Option, some}
use Prim.Native.Nat.{bit_and}
use my_sbuos.Pages.{page_size}
use my_sbuos.Virtual.{translate}
use my_sbuos.Creation.{System}
use my_sbuos.Interrupts.{Service, served}

-- The error code says that the page was not present.
abbrev pub NotPresent : ℕ → Type 0
NotPresent error = (bit_and (error % 2 ^ 32) 5 ≡ 0) ⊎ (bit_and (error % 2 ^ 32) 5 ≡ 4)

-- The system behind the service: the address leads to `b`, the words other than `slot` are as before,
-- and so are the buffer of the copy and the processes, with their root in the register.
pub record Served (b address slot : ℕ) (temp_page : ℕ → ℕ) (s : System) (out : Option Service)
    : Type 0 where
  pub after : System
  pub result : out ≡ some (served temp_page after)
  pub reached :
      translate after.space.machine.memory after.space.cr3 address ≡ some (b + address % page_size)
  pub others : (a : ℕ) → a ≢ slot → after.space.machine.memory a ≡ s.space.machine.memory a
  pub kernel : after.kernel ≡ record (s.kernel) { cr3 = s.space.cr3 }
