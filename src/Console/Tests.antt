-- ===== src/Console/Tests.antt =====
-- Runs of the console, and its theorems at a small screen.
use my_sbuos.Base.{arith}
use my_sbuos.Console.{Console, write_k}
use my_sbuos.Console.Cursor.{OnScreen, write_k-OnScreen}
use my_sbuos.Console.Numbers.{itoa_printf}
use my_sbuos.Console.Numbers.Digits.{Decimal, itoa_printf-Decimal}

-- each byte holds its offset
abbrev corner : Console
corner = record { row = 22; col = 79; display = λ j. j }

abbrev middle : Console
middle = record { row = 3; col = 17; display = λ j. j }

write_k-OnScreen_example : OnScreen (write_k 65 corner)
write_k-OnScreen_example = write_k-OnScreen 65 corner (omega arith)

itoa_printf-Decimal_example : Decimal 107 5 (λ j. 9) (itoa_printf (λ j. 9) 5 107)
itoa_printf-Decimal_example = itoa_printf-Decimal (λ j. 9) 5 107 (omega arith)
