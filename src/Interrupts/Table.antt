-- ===== src/Interrupts/Table.antt =====
-- The table of the handlers, as the processor reads it.
use my_sbuos.Base.{
  ℕ, ◌+◌, ◌*◌, ◌/◌, ◌%◌, ◌^◌, ◌<◌, ◌≡◌, refl, ap, ◌∙◌, inl, inr, Option, none, some, arith, ◌==◌,
  if◌then◌else◌, Bool-cases, ==_iff, update_self, update_other,
}
use my_sbuos.Interrupts.{IdtDescriptor, Handlers, set_isr, idts_setup}

-- The address that the three parts of a descriptor make.
abbrev pub handler_of : IdtDescriptor → ℕ
handler_of d = d.offset_low + 2 ^ 16 * d.offset_mid + 2 ^ 32 * d.offset_high

-- A gate that a program may call, in the kernel's code segment.
abbrev pub IsGate : (handler : ℕ) → IdtDescriptor → Type 0
IsGate handler d =
    (handler_of d ≡ handler)
    × (d.selector ≡ 8)
    × (d.type_attr ≡ 0xEE)
    × (d.zero1 ≡ 0)
    × (d.zero2 ≡ 0)

-- The handler that a vector gets, if it gets one.
abbrev pub handler_for : Handlers → ℕ → Option ℕ
handler_for h v =
    if v == 0x80
    then some h.syscall
    else if v == 0x21
    then some h.keyboard
    else if v == 0x20
    then some h.timer
    else if v == 0x0e
    then some h.pagefault
    else if v == 0x0d
    then some h.protection_fault
    else if v == 0x08
    then some h.double_fault
    else none

abbrev pub Entry : (old : IdtDescriptor) → Option ℕ → IdtDescriptor → Type 0
Entry old none d = d ≡ old
Entry old (some handler) d = handler < 2 ^ 64 → IsGate handler d

abbrev gate : ℕ → IdtDescriptor
gate handler = record {
  offset_low = handler % 2 ^ 16;
  offset_mid = handler / 2 ^ 16 % 2 ^ 16;
  offset_high = handler / 2 ^ 32 % 2 ^ 32;
  zero1 = 0;
  zero2 = 0;
  selector = 8;
  type_attr = 0xEE;
}

set_isr-Entry :
    (idt : ℕ → IdtDescriptor) (n handler v : ℕ) (old : IdtDescriptor) (o : Option ℕ)
    → Entry old o (idt v)
    → Entry old (if v == n then some handler else o) (set_isr idt n handler v)
unfolding set_isr
set_isr-Entry idt n handler v old o h = elim (Bool-cases (v == n)) [
  | inl e ↦
      let here : set_isr idt n handler v ≡ gate handler =
        ap (set_isr idt n handler) ((==_iff v n).0 e) ∙ update_self idt n (gate handler) in
      rw (e, here) (λ small. (omega (arith, small), refl, refl, refl, refl))
  | inr ne ↦
      let kept : set_isr idt n handler v ≡ idt v =
        update_other idt n v (gate handler) (λ e. ground (arith, ne, e)) in
      rw (ne, kept) h
]

-- After `idts_setup` each of the six vectors has a gate to its handler, the address of which is the
-- one that the three parts of the descriptor make, and every other descriptor is as before.
pub idts_setup-Entry :
    (h : Handlers) (idt : ℕ → IdtDescriptor) (v : ℕ)
    → Entry (idt v) (handler_for h v) (idts_setup h idt v)
unfolding idts_setup
idts_setup-Entry h idt v =
    let i1 = set_isr idt 0x08 h.double_fault in
    let i2 = set_isr i1 0x0d h.protection_fault in
    let i3 = set_isr i2 0x0e h.pagefault in
    let i4 = set_isr i3 0x20 h.timer in
    let i5 = set_isr i4 0x21 h.keyboard in
    let old = idt v in
    let e1 = set_isr-Entry idt 0x08 h.double_fault v old none refl in
    let e2 = set_isr-Entry i1 0x0d h.protection_fault v old _ e1 in
    let e3 = set_isr-Entry i2 0x0e h.pagefault v old _ e2 in
    let e4 = set_isr-Entry i3 0x20 h.timer v old _ e3 in
    let e5 = set_isr-Entry i4 0x21 h.keyboard v old _ e4 in
    set_isr-Entry i5 0x80 h.syscall v old _ e5
