-- ===== src/FileDrivers/Tests.antt =====
-- The theorems on the drivers of FileDrivers at concrete inputs, and runs of what they leave behind.
use linux_kernel_development.Prelude.{
  arith, ◌-◌, ◌*◌, ◌/◌, ◌+◌, ◌%◌, ◌^◌, ltb, leb, ◌&&◌, ◌==◌, zero, suc, if◌then◌else◌, Option, Bool,
  ◌≢◌, ℕ, ◌≡◌, refl, true, false, none, some, List, [], ◌∷◌, ◌++◌, ℤ, pos, negsuc, enomem,
}
use linux_kernel_development.Kernel.Ledger.{memory, debugfs_dir, outstanding}
use linux_kernel_development.FileDrivers.Proc.{
  Write, no_text, my_proc_show, my_proc_write, hello_exit, write_all, last_written, line, buffers,
  write_all-my_proc_show, c_string,
}
use linux_kernel_development.FileDrivers.Misc.{
  crashed, start_up, terminate, open_func, release_func,
}
use linux_kernel_development.FileDrivers.Debug.{add_write_op, add_all, init_module}
use linux_kernel_development.FileDrivers.Poll.{
  Attribute, Ints, is_int, notify, trigger, Attributes, Conversions, name, show, store_all,
  store-show, hello_module_init, hello_module_exit,
}

-- Three writes: "a", one without memory, and "b\0c".
abbrev three_writes : List Write
three_writes =
    record { tmp_ok = true; copied = true; bytes = 97 ∷ [] }
    ∷ record { tmp_ok = false; copied = true; bytes = 100 ∷ [] }
    ∷ record { tmp_ok = true; copied = true; bytes = 98 ∷ 0 ∷ 99 ∷ [] }
    ∷ []

write_all-my_proc_show_example :
    ((my_proc_show (write_all no_text three_writes)).0 ≡ line (last_written none three_writes))
    × (outstanding memory 0 (write_all no_text three_writes).log
        ≡ some (buffers (last_written none three_writes)))
    × (outstanding memory 0 ((write_all no_text three_writes).log ++ hello_exit)
        ≡ some (buffers (last_written none three_writes)))
write_all-my_proc_show_example = write_all-my_proc_show three_writes

three_writes_show : (my_proc_show (write_all no_text three_writes)).0 ≡ some (98 ∷ 10 ∷ [])
unfolding my_proc_show write_all my_proc_write c_string
three_writes_show = refl

-- A copy that fails is answered with 14, which a caller takes for a count.
failed_copy :
    (my_proc_write no_text (record { tmp_ok = true; copied = false; bytes = 97 ∷ [] })).1 ≡ pos 14
unfolding my_proc_write
failed_copy = refl

-- A load without memory copies to NULL, and the buffer of a close is not freed.
misc_leaks :
    (start_up (pos 0) none ≡ crashed)
    × (outstanding memory 0 (open_func ++ release_func ++ terminate) ≡ some 1)
unfolding start_up open_func release_func terminate outstanding
misc_leaks = (refl, refl)

add_wraps : add_all 5 (4294967295 ∷ 3 ∷ []) ≡ 7
unfolding add_all add_write_op
add_wraps = refl

failed_file_leaks : outstanding debugfs_dir 0 (init_module true false).log ≡ some 1
unfolding init_module outstanding
failed_file_leaks = refl

-- Decimal numbers, for as many digits as there is fuel.
digits : ℕ → ℕ → List ℕ
digits zero n = []
digits (suc fuel) n =
    let rest = digits fuel (n / 10) in
    if ltb n 10 then (48 + n) ∷ [] else rest ++ ((48 + n % 10) ∷ [])

abbrev is_digit : ℕ → Bool
is_digit b = leb 48 b && leb b 57

number : ℕ → List ℕ → ℕ
number n [] = n
number n (b ∷ bs) = let rest = number (n * 10 + (b - 48)) bs in if is_digit b then rest else n

-- What an `int` holds of a number.
to_int : ℕ → ℤ
to_int n = if ltb (n % 2 ^ 32) (2 ^ 31) then pos (n % 2 ^ 32) else negsuc (2 ^ 32 - n % 2 ^ 32 - 1)

decimal : ℤ → List ℕ
unfolding digits
decimal (pos n) = digits 10 n
decimal (negsuc n) = 45 ∷ digits 10 (n + 1)

scan_decimal : List ℕ → Option ℤ
unfolding to_int number
scan_decimal [] = none
scan_decimal (b ∷ bs) =
    if is_digit b
    then some (to_int (number 0 (b ∷ bs)))
    else (if b == 45 then some (to_int (2 ^ 32 - number 0 bs % 2 ^ 32)) else none)

to_int-int : (n : ℕ) → is_int (to_int n) ≡ true
unfolding to_int
to_int-int n = ground arith

scan_decimal-int : (bytes : List ℕ) (v : ℤ) → scan_decimal bytes ≡ some v → is_int v ≡ true
unfolding scan_decimal
scan_decimal-int [] v e = cc e
scan_decimal-int (b ∷ bs) v e =
    ground (arith, to_int-int (number 0 (b ∷ bs)), to_int-int (2 ^ 32 - number 0 bs % 2 ^ 32), e)

abbrev decimals : Conversions
decimals = record { render = decimal; scan = scan_decimal; scan-int = scan_decimal-int }

abbrev at_zero : Attributes
at_zero = record { notify_value = pos 0; trigger_value = pos 0; notices = [] }

trigger-is_other : trigger ≢ notify
trigger-is_other e = cc e

-- "-12" and "7", with the end of a line.
abbrev two_stores : List (Attribute × List ℕ)
two_stores = (notify, 45 ∷ 49 ∷ 50 ∷ 10 ∷ []) ∷ (trigger, 55 ∷ 10 ∷ []) ∷ []

store-show_example :
    (show decimals (store_all decimals at_zero two_stores) notify
      ≡ name notify ++ (58 ∷ 32 ∷ (45 ∷ 49 ∷ 50 ∷ 10 ∷ [])))
    × ((store_all decimals at_zero two_stores).notices ≡ notify ∷ trigger ∷ [])
    × Ints decimals (store_all decimals at_zero two_stores)
unfolding decimal scan_decimal digits number to_int
store-show_example =
    store-show decimals at_zero notify (negsuc 11) ((trigger, 55 ∷ 10 ∷ []) ∷ []) refl (refl, refl)
      (trigger-is_other, tt)

-- A name that cannot be added loads all the same, and its memory is not freed.
unnamed_leaks :
    ((hello_module_init true enomem).rv ≡ pos 0)
    × (outstanding memory 0 ((hello_module_init true enomem).log ++ hello_module_exit false)
        ≡ some 1)
unfolding hello_module_init hello_module_exit outstanding
unnamed_leaks = (refl, refl)
