-- ===== src/Interrupts.antt =====
-- include/sys/idt.h and include/sys/pic_helpers.h: the table of interrupt handlers, the service routines
-- that join the parts of the kernel, and the interrupt controller. A write to a port is an entry of a
-- list; the saving of registers and `iretq` are assembly.
pub mod Table
pub mod Fault
pub mod Pic
mod Tests
use my_sbuos.Base.{
  ℕ, zero, suc, ◌+◌, ◌-◌, ◌*◌, ◌/◌, ◌%◌, ◌^◌, ◌≤◌, ◌<◌, ◌≡◌, refl, sym, ap, ap₂, ◌∙◌, ◌≢◌, ◌⊎◌, inl,
  inr, Bool, true, false, not, ◌&&◌, ◌||◌, Option, none, some, List, [], ◌∷◌, ◌++◌, map, append-nil,
  append_assoc, arith, ltb, leb, ◌==◌, if◌then◌else◌, Bool-cases, Option-cases, ◌>>=◌, ltb→lt,
  lt→ltb, leb→le, eq→==, ne→==, ==_iff, length, get_or, length-append, All, All-append, NotIn,
  Distinct, NotIn-append, Distinct-snoc, mem, NotIn-of_mem, mem_of_NotIn, mem-append, update,
  update_self, update_other, Holds, Holds-agree, Holds-append, Holds-append_left,
  Holds-append_right, subst,
}
use Prim.Native.Nat.{bit_and}
use my_sbuos.Process.{Kernel, preempt}
use my_sbuos.Timer.{Timer}
use my_sbuos.Keyboard.{Keys, Input, buffer_add_char}
use my_sbuos.Status.{put_pressed_key, put_time_since_boot}
use my_sbuos.Virtual.{Space, add_physical_page_in}
use my_sbuos.Virtual.Cow.{handle_cow}
use my_sbuos.Creation.{System, set_cr3}
use my_sbuos.Syscall.Dispatch.{Call, do_system_call}

-- `outb(port, val)`
pub record PortWrite : Type 0 where
  pub port : ℕ
  pub val : ℕ

abbrev pub outb : (port val : ℕ) → List PortWrite → List PortWrite
outb port val out = out ++ record { port = port; val = val % 256 } ∷ []

pub record IdtDescriptor : Type 0 where
  pub offset_low : ℕ
  pub selector : ℕ
  pub zero1 : ℕ
  pub type_attr : ℕ
  pub offset_mid : ℕ
  pub offset_high : ℕ
  pub zero2 : ℕ

pub set_isr : (idt : ℕ → IdtDescriptor) (int_num handler : ℕ) → ℕ → IdtDescriptor
set_isr idt int_num handler = update idt int_num (record {
  offset_low = handler % 2 ^ 16;
  offset_mid = handler / 2 ^ 16 % 2 ^ 16;
  offset_high = handler / 2 ^ 32 % 2 ^ 32;
  zero1 = 0;
  zero2 = 0;
  selector = 8;
  type_attr = 0xEE;
})

-- The addresses of the routines of sys/idt.s.
pub record Handlers : Type 0 where
  pub double_fault : ℕ
  pub protection_fault : ℕ
  pub pagefault : ℕ
  pub timer : ℕ
  pub keyboard : ℕ
  pub syscall : ℕ

-- The table that `lidt` then loads.
pub idts_setup : Handlers → (ℕ → IdtDescriptor) → ℕ → IdtDescriptor
idts_setup h idt =
    let i1 = set_isr idt 0x08 h.double_fault in
    let i2 = set_isr i1 0x0d h.protection_fault in
    let i3 = set_isr i2 0x0e h.pagefault in
    let i4 = set_isr i3 0x20 h.timer in
    let i5 = set_isr i4 0x21 h.keyboard in set_isr i5 0x80 h.syscall

-- What the two device interrupts reach: the driver of the status line with its buffers, the timer, the
-- typed input with the processes and the console, and the ports.
pub record Devices : Type 0 where
  pub keys : Keys
  pub glyph_buffer : List ℕ
  pub timer : Timer
  pub time_buffer : List ℕ
  pub input : Input
  pub ports : List PortWrite

abbrev pub set_display : (ℕ → ℕ) → Input → Input
set_display d i = record i { console = record (i.console) { display = d } }

-- `l` is the byte read from port 0x60.
pub int_kbd_srv : (l : ℕ) → Devices → Option Devices
int_kbd_srv l s = put_pressed_key l s.keys s.glyph_buffer s.input.console.display >>= λ shown.
    buffer_add_char l (set_display shown.2 s.input) >>= λ input. some (record s {
      keys = shown.0;
      glyph_buffer = shown.1;
      input = input;
      ports = outb 0x20 0x20 s.ports;
    })

-- A process that is preempted writes to the port when it runs again. `rsp` is the stack pointer in
-- `preempt`; the stack pointer of the process that runs next is returned.
pub int_tmr_srv : (fuel rsp : ℕ) → Devices → Option (ℕ × Devices)
int_tmr_srv fuel rsp s =
    put_time_since_boot s.timer s.input.kernel s.time_buffer s.input.console.display >>= λ shown.
    preempt fuel rsp shown.1 >>= λ r.
    let input = record (set_display shown.3 s.input) { kernel = r.1 } in
    some (
      r.0,
      record s {
        timer = shown.0;
        time_buffer = shown.2;
        input = input;
        ports = outb 0x20 0x20 s.ports;
      },
    )

-- The two messages stand for the endless loops behind them.
pub data Service : Type 0 where
  segmentation_fault : Service
  not_handled : Service
  served : (temp_page : ℕ → ℕ) → System → Service

-- `address` is `cr2` and `error` the pushed code, cut to 32 bits; `temp_page` is the static buffer of
-- the copy.
pub int_pgflt_srv : (temp_page : ℕ → ℕ) (address error : ℕ) → System → Option Service
int_pgflt_srv temp_page address error s =
    let code = error % 2 ^ 32 in
    let pml4 = (s.kernel.pcbs s.kernel.active).pml4 in
    let finish : (ℕ → ℕ) → Space → Service =
      λ temp space. served temp (set_cr3 pml4 (record s { space = space })) in
    let on_copy = handle_cow address temp_page s.kernel s.space >>= λ r. some (finish r.0 r.1) in
    let on_new = add_physical_page_in address s.space >>= λ space. some (finish temp_page space) in
    if address == 0
    then some segmentation_fault
    else if code == 7
    then on_copy
    else if (bit_and code 5 == 0) || (bit_and code 5 == 4)
    then on_new
    else some not_handled

-- The system call that the saved registers ask for; `m` are the words of the stack. The result goes
-- into the word of the code, `rsp[5]`.
pub int_syscall_srv : (m : ℕ → ℕ) (rsp : ℕ) → Option Call
int_syscall_srv m rsp = do_system_call (m (rsp + 40)) (m (rsp + 32)) (m (rsp + 24)) (m (rsp + 16))
