-- ===== src/Pages/Tests.antt =====
-- Runs of the page lists at boot, and the theorems at three pages.

use my_sbuos.Base.{ℕ, zero, suc, ◌≡◌, refl, some, [], ◌∷◌, arith}
use my_sbuos.Pages.{MemPage, Pages, get_free_page}
use my_sbuos.Pages.Free.{Owned, get_free_page-Owned}
use my_sbuos.Pages.Build.{init_pages, make_pages, filter_out_pages}
use my_sbuos.Pages.Build.Make.{Covers, make_pages-Covers}
use my_sbuos.Pages.Build.Filter.{Filtered, filter_out_pages-Filtered}

abbrev entries : ℕ → MemPage
entries zero = record { base = 0; next = 0 }
entries (suc zero) = record { base = 0x100000; next = 2 }
entries (suc (suc zero)) = record { base = 0x101000; next = 3 }
entries (suc (suc (suc j))) = record { base = 0x102000; next = 0 }

abbrev three : Pages
three = record {
  page_list = entries;
  free = record { head = 1; tail = 3 };
  used = record { head = 0; tail = 0 };
}

abbrev spent : Pages
spent = record {
  page_list = entries;
  free = record { head = 0; tail = 0 };
  used = record { head = 1; tail = 3 };
}

three-Owned : Owned three (1 ∷ 2 ∷ 3 ∷ []) []
three-Owned = record {
  free_chain = omega arith;
  free_distinct = omega arith;
  used_list = record { chain = refl; tail_is = refl; distinct = tt };
  apart = λ j k. tt;
}

spent-Owned : Owned spent [] (1 ∷ 2 ∷ 3 ∷ [])
spent-Owned = record {
  free_chain = refl;
  free_distinct = tt;
  used_list = record { chain = omega arith; tail_is = refl; distinct = omega arith };
  apart = λ j k. absurd (k tt);
}

get_free_page-Owned_example :
    ((get_free_page 0xffffffff80210008 three).0 ≡ some 1)
    × Owned (get_free_page 0xffffffff80210008 three).1 (2 ∷ 3 ∷ []) (1 ∷ [])
    × ((j : ℕ) → ((get_free_page 0xffffffff80210008 three).1.page_list j).base ≡ (entries j).base)
get_free_page-Owned_example =
    get_free_page-Owned 0xffffffff80210008 three 1 (2 ∷ 3 ∷ []) [] three-Owned

make_pages-Covers_example :
    Covers 0x100000 0x102800 (make_pages 4 0x100000 0x2800 1 (init_pages entries).1)
unfolding init_pages
make_pages-Covers_example =
    make_pages-Covers 3 0x100000 0x2800 entries (omega arith) (omega arith) (omega arith)

filter_out_pages-Filtered_example :
    Filtered 0x101000 0x102000 three (1 ∷ 2 ∷ 3 ∷ []) (filter_out_pages 4 0x101000 0x102000 three)
filter_out_pages-Filtered_example =
    filter_out_pages-Filtered 4 0x101000 0x102000 three (1 ∷ 2 ∷ 3 ∷ []) refl (omega arith)
      (omega arith) (λ p q. cc) (omega arith)
