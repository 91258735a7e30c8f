-- ===== src/Virtual/Tests.antt =====
-- A kernel page mapped again, and copied.
use my_sbuos.Base.{◌≡◌, refl, some}
use Prim.Native.Nat.{bit_and, bit_or}
use my_sbuos.Paging.{frame_mask, set_word}
use my_sbuos.Virtual.{map_page}
use my_sbuos.Virtual.Cow.Private.{Private}
use my_sbuos.Virtual.Present.{map_page-walk}
use my_sbuos.Virtual.Sample.{space, memory-walk}

map_page-walk_example :
    map_page 0x300000 0xffffffff80200000 3 space
    ≡ some (
      0xffffffff80201000,
      record space {
        machine = set_word 0x4000 (bit_or (bit_and 0x300000 frame_mask) 3) space.machine;
      },
    )
map_page-walk_example =
    map_page-walk 0x300000 0xffffffff80200000 3 0x4000 space (refl, refl) memory-walk
