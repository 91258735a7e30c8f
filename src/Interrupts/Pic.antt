-- ===== src/Interrupts/Pic.antt =====
-- include/sys/pic_helpers.h: what is written to the interrupt controller and the timer, in order.
use my_sbuos.Base.{ℕ, List}
use my_sbuos.Interrupts.{PortWrite, outb}

-- The `al` that `io_wait` writes is 0.
abbrev pub io_wait : List PortWrite → List PortWrite
io_wait out = outb 0x80 0 out

-- `a1` and `a2` are the masks read from the ports 0x21 and 0xA1.
pub pic_remap : (offset1 offset2 a1 a2 : ℕ) → List PortWrite → List PortWrite
pic_remap offset1 offset2 a1 a2 out =
    let start = io_wait (outb 0xA0 0x11 (io_wait (outb 0x20 0x11 out))) in
    let offsets = io_wait (outb 0xA1 offset2 (io_wait (outb 0x21 offset1 start))) in
    let cascade = io_wait (outb 0xA1 2 (io_wait (outb 0x21 4 offsets))) in
    let mode = io_wait (outb 0xA1 0x01 (io_wait (outb 0x21 0x01 cascade))) in
    outb 0xA1 a2 (outb 0x21 a1 mode)

pub timer_setup : List PortWrite → List PortWrite
timer_setup out = io_wait (outb 0x43 0x91 (io_wait (outb 0x43 0xa6 (io_wait (outb 0x43 0x43 out)))))

pub pic_setmasks : (master_masks slave_masks : ℕ) → List PortWrite → List PortWrite
pic_setmasks master_masks slave_masks out = outb 0xA1 slave_masks (outb 0x21 master_masks out)

pub pic_setup : (a1 a2 : ℕ) → List PortWrite → List PortWrite
pic_setup a1 a2 out = pic_setmasks 0xf8 0xff (pic_setmasks 0 0 (pic_remap 0x20 0x28 a1 a2 out))
