-- ===== src/FileDrivers/Debug.antt =====
-- Debugfs/debugfs2.c: a file that adds to a sum of 32 bits, and the module's directory under debugfs.
use linux_kernel_development.Prelude.{
  refl, ◌++◌, true, ◌∙◌, ℕ, ◌+◌, ◌%◌, ◌^◌, ◌≡◌, ◌<◌, Bool, not, if◌then◌else◌, List, [], ◌∷◌, ℤ,
  pos, negsuc, arith,
}
use linux_kernel_development.Kernel.Ledger.{
  Events, taken, given, debugfs_dir, add_file, sum_file, Settled, leaves, nothing,
  outstanding_of_leaves,
}
use linux_kernel_development.Kernel.CharSetup.{Loaded}

-- `sum += value`, in 64 bits, cut to the 32 of `sum`, and the value returned.
unfoldable pub add_write_op : ℕ → ℕ → ℕ × ℤ
add_write_op sum value = ((sum + value) % 2 ^ 64 % 2 ^ 32, pos 0)

-- The file is written to with one value after the other.
unfoldable pub add_all : ℕ → List ℕ → ℕ
add_all sum [] = sum
add_all sum (v ∷ vs) = add_all (add_write_op sum v).0 vs

abbrev pub total : List ℕ → ℕ
total [] = 0
total (v ∷ vs) = v + total vs

-- Whether the directory and the file `add` have been created. A failure of the second leaves the first.
unfoldable pub init_module : Bool → Bool → Loaded
init_module dir_ok add_ok =
    if not dir_ok
    then record { log = []; rv = negsuc 0 }
    else (if not add_ok
        then record { log = taken debugfs_dir ∷ []; rv = negsuc 0 }
        else record { log = taken debugfs_dir ∷ taken add_file ∷ taken sum_file ∷ []; rv = pos 0 })

-- The directory is removed with what is in it.
unfoldable pub cleanup_module : Events
cleanup_module = given sum_file ∷ given add_file ∷ given debugfs_dir ∷ []

added : (sum v t : ℕ) → ((sum + v) % 2 ^ 64 % 2 ^ 32 + t) % 2 ^ 32 ≡ (sum + (v + t)) % 2 ^ 32
added sum v t = omega arith

add_all-congruent : (sum : ℕ) (vs : List ℕ) → add_all sum vs % 2 ^ 32 ≡ (sum + total vs) % 2 ^ 32
unfolding add_all add_write_op
add_all-congruent sum [] = omega arith
add_all-congruent sum (v ∷ vs) =
    add_all-congruent (add_write_op sum v).0 vs ∙ added sum v (total vs)

add_all_fits : (sum : ℕ) (vs : List ℕ) → sum < 2 ^ 32 → add_all sum vs < 2 ^ 32
unfolding add_all add_write_op
add_all_fits sum [] fits = fits
add_all_fits sum (v ∷ vs) fits = add_all_fits (add_write_op sum v).0 vs (omega arith)

-- After any writes, the sum of 32 bits is the sum of the values, as numbers, modulo 2^32.
add_all-total : (sum : ℕ) (vs : List ℕ) → sum < 2 ^ 32 → add_all sum vs ≡ (sum + total vs) % 2 ^ 32
add_all-total sum vs fits = omega (arith, add_all-congruent sum vs, add_all_fits sum vs fits)

load_unload-leaves : leaves nothing ((init_module true true).log ++ cleanup_module) ≡ true
unfolding init_module cleanup_module leaves
load_unload-leaves = refl

-- The module that has loaded gives back, once, all that it took.
load_unload-Settled : Settled ((init_module true true).log ++ cleanup_module)
load_unload-Settled =
    outstanding_of_leaves nothing ((init_module true true).log ++ cleanup_module) load_unload-leaves
