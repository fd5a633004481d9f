-- ===== src/FileDrivers/Misc.antt =====
-- MiscDriver/misctest.c: a misc device with a buffer of 100 bytes, whose reads and writes do not look at
-- its size.
use linux_kernel_development.Prelude.{
  ℕ, ◌+◌, ◌-◌, ◌≤◌, ◌<◌, ◌≡◌, ltb, Bool, true, not, if◌then◌else◌, Option, none, some, List, [],
  ◌∷◌, ◌++◌, length, take, drop, replicate, ℤ, pos, eq_ℤ, refl, arith, length-append, length-drop,
  take-append, drop-append, ◌∙◌, length-take, length-replicate, take-all, append-nil, sym, ap,
  drop-drop, Bool-cases, inl, inr,
}
use linux_kernel_development.Kernel.Ledger.{Events, taken, given, memory, misc_device, data_area}

-- The size of the buffer.
abbrev pub size : ℕ
size = 100

-- "initmsg", with its terminator.
abbrev pub initmsg : List ℕ
initmsg = 105 ∷ 110 ∷ 105 ∷ 116 ∷ 109 ∷ 115 ∷ 103 ∷ 0 ∷ []

-- What a load comes to: a message that is copied to NULL is a crash.
pub data StartedUp : Type 0 where
  refused : ℤ → StartedUp
  crashed : StartedUp
  ready : List ℕ → Events → StartedUp

-- `misc_register` answers with a number, `kvmalloc` with what the 100 bytes hold.
unfoldable pub start_up : ℤ → Option (List ℕ) → StartedUp
start_up retcode answer = if not (eq_ℤ retcode (pos 0)) then refused retcode else elim answer [
  | none ↦ crashed
  | some bytes ↦
      ready (initmsg ++ drop (length initmsg) bytes) (taken misc_device ∷ taken data_area ∷ [])
]

unfoldable pub terminate : Events
terminate = given misc_device ∷ []

-- The buffers that an open and a close allocate and free, if they get them.
unfoldable pub open_func : Events
open_func = taken memory ∷ given memory ∷ []

unfoldable pub release_func : Events
release_func = taken memory ∷ []

-- The bytes handed to the user, none if the copy fails, the offset, and the value returned; `none` if
-- the read runs past the end of the buffer.
unfoldable pub read_func : List ℕ → ℕ → ℕ → Bool → Option (List ℕ × ℕ × ℕ)
read_func kernel_buffer count offset copied =
    if ltb (length kernel_buffer) count
    then none
    else some (if copied then take count kernel_buffer else [], offset + count, count)

-- The buffer and the value returned, or `none` if the write runs past its end. `copy_from_user` brings
-- the first `landed` bytes, and zeroes for those it cannot read.
unfoldable pub write_func : List ℕ → List ℕ → ℕ → Option (List ℕ × ℕ)
write_func kernel_buffer bytes landed =
    let count = length bytes in
    let brought = take landed bytes ++ replicate (count - landed) 0 in
    if ltb count (length kernel_buffer)
    then some (brought ++ (0 ∷ drop (count + 1) kernel_buffer), count)
    else none

length-brought :
    (bytes : List ℕ) (landed : ℕ)
    → length (take landed bytes ++ replicate (length bytes - landed) 0) ≡ length bytes
length-brought bytes landed = omega (
  arith,
  length-append (take landed bytes) (replicate (length bytes - landed) 0),
  length-take landed bytes,
  length-replicate {A = ℕ} (length bytes - landed) 0,
)

-- What a write leaves is as long as the buffer.
abbrev KeepsSize : List ℕ → Option (List ℕ × ℕ) → Type 0
KeepsSize kernel_buffer none = Unit {0}
KeepsSize kernel_buffer (some (after, rv)) = length after ≡ length kernel_buffer

-- However many of its bytes can be read from the user, a write that stays inside of the buffer keeps
-- its size.
write_func-KeepsSize :
    (kernel_buffer bytes : List ℕ) (landed : ℕ)
    → KeepsSize kernel_buffer (write_func kernel_buffer bytes landed)
unfolding write_func
write_func-KeepsSize kernel_buffer bytes landed =
    elim (Bool-cases (ltb (length bytes) (length kernel_buffer))) [
      | inr long ↦ rw long tt
      | inl fits ↦
          let inside : length bytes < length kernel_buffer = ground (arith, fits) in
          rw fits (
            omega (
              arith,
              inside,
              length-append (take landed bytes ++ replicate (length bytes - landed) 0)
                  (0 ∷ drop (length bytes + 1) kernel_buffer),
              length-brought bytes landed,
              length-drop (length bytes + 1) kernel_buffer,
            ))
    ]

-- What is claimed of a write, and of a read of `count` bytes behind it.
abbrev pub Returned : List ℕ → List ℕ → ℕ → Option (List ℕ × ℕ) → Type 0
Returned kernel_buffer bytes offset none = size ≤ length bytes
Returned kernel_buffer bytes offset (some (after, rv)) =
    (length bytes < size)
    × (rv ≡ length bytes)
    × (length after ≡ size)
    × (read_func after (length bytes) offset true
        ≡ some (bytes, offset + length bytes, length bytes))
    × (drop (length bytes + 1) after ≡ drop (length bytes + 1) kernel_buffer)

whole :
    (bytes : List ℕ)
    → take (length bytes) bytes ++ replicate (length bytes - length bytes) 0 ≡ bytes
whole bytes =
    let none_left : length bytes - length bytes ≡ 0 = omega arith in
    rw (take-all (length bytes) bytes (omega arith), none_left, append-nil bytes) refl

-- The buffer that a write leaves.
module _ (kernel_buffer bytes : List ℕ) where
  abbrev after : List ℕ
  after = bytes ++ (0 ∷ drop (length bytes + 1) kernel_buffer)

  length-after : length kernel_buffer ≡ size → length bytes < size → length after ≡ size
  length-after sized fits = omega (
    arith,
    length-append bytes (0 ∷ drop (length bytes + 1) kernel_buffer),
    length-drop (length bytes + 1) kernel_buffer,
  )

  read-after :
      (offset : ℕ)
      → length after ≡ size
      → length bytes < size
      → read_func after (length bytes) offset true
        ≡ some (bytes, offset + length bytes, length bytes)
  unfolding read_func
  read-after offset sized fits =
      rw (take-append bytes (0 ∷ drop (length bytes + 1) kernel_buffer)) (ground arith)

  drop-after : drop (length bytes + 1) after ≡ drop (length bytes + 1) kernel_buffer
  drop-after =
      sym (drop-drop 1 (length bytes) after)
      ∙ ap (drop 1) (drop-append bytes (0 ∷ drop (length bytes + 1) kernel_buffer))

-- A write of at most 99 bytes, all of which can be read from the user, is counted in full, keeps what
-- the buffer holds behind it and the terminator, and a read of as many bytes hands them back and moves
-- the offset; a write of 100 bytes or more writes past the end of the buffer.
write_func-read_func :
    (kernel_buffer bytes : List ℕ) (offset : ℕ)
    → length kernel_buffer ≡ size
    → Returned kernel_buffer bytes offset (write_func kernel_buffer bytes (length bytes))
unfolding write_func
write_func-read_func kernel_buffer bytes offset sized =
    elim (Bool-cases (ltb (length bytes) (length kernel_buffer))) [
      | inr long ↦ rw long (ground (arith, long, sized))
      | inl fits ↦
          let fits' : length bytes < size = ground (arith, fits, sized) in
          let sized' = length-after kernel_buffer bytes sized fits' in
          rw (fits, whole bytes)
            (
              fits',
              refl,
              sized',
              read-after kernel_buffer bytes offset sized' fits',
              drop-after kernel_buffer bytes,
            )
    ]
