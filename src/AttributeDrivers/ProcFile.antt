-- ===== src/AttributeDrivers/ProcFile.antt =====
-- The file under /proc of Procfs/procfs2.c: `read_proc`, `write_proc`, and the `ioctl` of the device.
use linux_kernel_development.Prelude.{
  [], ℕ, ◌==◌, ltb, leb, ◌≡◌, ◌++◌, Bool, true, false, not, Option, none, some, List, take, drop,
  length, if◌then◌else◌, arith, length-append, length-drop, take-append, dec_lt, sym, take-take,
  min, ap, ◌∙◌, refl,
}

abbrev pub array_size : ℕ
array_size = 20

-- The variables at file scope: `test_array`, the flag `len`, and `value`.
pub record ProcState : Type 0 where
  pub test_array : List ℕ
  pub len : ℕ
  pub value : ℕ

-- What a read returns, and the bytes put into the user's buffer, none if the copy fails.
pub record ProcRead : Type 0 where
  pub rv : ℕ
  pub handed : List ℕ

-- The read copies 20 bytes whatever `length` is.
unfoldable pub read_proc : ProcState → ℕ → Bool → ProcState × ProcRead
read_proc s length copied =
    if not (s.len == 0)
    then (
      record s { len = 0 },
      record { rv = length; handed = if copied then take array_size s.test_array else [] },
    )
    else (record s { len = 1 }, record { rv = 0; handed = [] })

-- What a write leaves: `overrun` if it writes past the end of `test_array`, which C leaves undefined.
pub data ProcWritten : Type 0 where
  written : ProcState → ℕ → ProcWritten
  overrun : ProcWritten

-- `bytes` is the user's buffer. A copy that fails is only reported.
unfoldable pub write_proc : ProcState → List ℕ → Bool → ProcWritten
write_proc s bytes copied =
    if ltb array_size (length bytes)
    then overrun
    else written
        (if copied then record s { test_array = bytes ++ drop (length bytes) s.test_array } else s)
        (length bytes)

-- `WR_VALUE`, `RD_VALUE`, and any other command.
pub data IoctlCommand : Type 0 where
  wr_value : ℕ → IoctlCommand
  rd_value unknown : IoctlCommand

-- The state, and what is copied to the user.
unfoldable pub test_ioctl : ProcState → IoctlCommand → Bool → ProcState × Option ℕ
test_ioctl s (wr_value v) copied = (if copied then record s { value = v } else s, none)
test_ioctl s rd_value copied = (s, if copied then some s.value else none)
test_ioctl s unknown copied = (s, none)

abbrev pub IsValid : ProcState → Type 0
IsValid s = length s.test_array ≡ array_size

-- What is claimed of a write followed by two reads for a count of bytes.
abbrev pub RoundTrips : List ℕ → ℕ → ProcWritten → Type 0
RoundTrips bytes count overrun = ⊥
RoundTrips bytes count (written s rv) =
    let (s1, first) = read_proc s count true in
    let (s2, second) = read_proc s1 count true in
    IsValid s
    × (rv ≡ length bytes)
    × (take (length bytes) first.handed ≡ bytes)
    × (first.rv ≡ count)
    × (second.rv ≡ 0)
    × (s2 ≡ s)

-- What a write of at most 20 bytes puts into the array, the next read hands over first, and the read
-- after that reports the end of the file and leaves the file as it was, if the flag is set and the
-- copies succeed; a longer write runs past the end of the array.
pub write_proc-read_proc :
    (s : ProcState) (bytes : List ℕ) (count : ℕ)
    → IsValid s
    → s.len ≡ 1
    → if leb (length bytes) array_size
      then RoundTrips bytes count (write_proc s bytes true)
      else (write_proc s bytes true ≡ overrun)
unfolding write_proc read_proc
write_proc-read_proc s bytes count v fresh = elim (dec_lt array_size (length bytes)) [
  | yes long ↦
      let beyond : ltb array_size (length bytes) ≡ true = ground arith in
      let not_short : leb (length bytes) array_size ≡ false = ground arith in
      rw (beyond, not_short) refl
  | no short ↦
      let inside : ltb array_size (length bytes) ≡ false = ground arith in
      let is_short : leb (length bytes) array_size ≡ true = ground arith in
      let set : (s.len == 0) ≡ false = ground arith in
      let rest = drop (length bytes) s.test_array in
      let least : min array_size (length bytes) ≡ length bytes = omega arith in
      rw (inside, is_short, set)
        (
          omega (arith, length-append bytes rest, length-drop (length bytes) s.test_array),
          refl,
          take-take (length bytes) array_size (bytes ++ rest)
              ∙ ap (λ n. take n (bytes ++ rest)) least
              ∙ take-append bytes rest,
          refl,
          refl,
          ap (λ n. record s { test_array = bytes ++ rest; len = n }) (sym fresh),
        )
]
