-- ===== src/FileDrivers/Proc.antt =====
-- Procfs/procfs1.c: a text under /proc that each write replaces.
use linux_kernel_development.Prelude.{
  ℕ, ◌≡◌, Bool, not, ◌&&◌, ◌==◌, if◌then◌else◌, Option, none, some, List, [], ◌∷◌, ◌++◌, length, ℤ,
  pos, negsuc, enomem, refl, arith, ◌∙◌, inl, inr, Bool-cases,
}
use linux_kernel_development.Kernel.Ledger.{
  Events, taken, given, memory, proc_file, outstanding, outstanding-append,
}
use linux_kernel_development.Kernel.CharSetup.{Loaded}

-- `str`, NULL or a buffer, and the allocations made and freed.
pub record ProcText : Type 0 where
  pub str : Option (List ℕ)
  pub log : Events

abbrev pub no_text : ProcText
no_text = record { str = none; log = [] }

-- The bytes that `%s` prints from a buffer; `none` if there is no terminator in it.
unfoldable pub c_string : List ℕ → Option (List ℕ)
c_string [] = none
c_string (b ∷ bs) =
    let rest = c_string bs in
    if b == 0 then some [] else elim rest [ none ↦ none | some text ↦ some (b ∷ text) ]

-- What the file shows, and the value returned. `none` if `str` is NULL, for which the kernel prints a
-- text of its own, or if the print runs past the end of the buffer.
unfoldable pub my_proc_show : ProcText → Option (List ℕ) × ℤ
my_proc_show s = (
  elim s.str [
    | none ↦ none
    | some buffer ↦ elim (c_string buffer) [ none ↦ none | some text ↦ some (text ++ (10 ∷ [])) ]
  ],
  pos 0,
)

-- `kfree(NULL)` does nothing.
abbrev pub freed : Option (List ℕ) → Events
freed none = []
freed (some buffer) = given memory ∷ []

-- A write: what `kzalloc` and `copy_from_user` answer, and the bytes.
pub record Write : Type 0 where
  pub tmp_ok : Bool
  pub copied : Bool
  pub bytes : List ℕ

-- A copy that fails is answered with EFAULT, which is 14 and not negated.
unfoldable pub my_proc_write : ProcText → Write → ProcText × ℤ
my_proc_write s w =
    if not w.tmp_ok
    then (s, enomem)
    else (if not w.copied
        then (record s { log = s.log ++ (taken memory ∷ given memory ∷ []) }, pos 14)
        else (
          record { str = some (w.bytes ++ (0 ∷ [])); log = s.log ++ (taken memory ∷ freed s.str) },
          pos (length w.bytes),
        ))

unfoldable pub hello_init : Bool → Loaded
hello_init entry_ok =
    if not entry_ok
    then record { log = []; rv = negsuc 0 }
    else record { log = taken proc_file ∷ []; rv = pos 0 }

unfoldable pub hello_exit : Events
hello_exit = given proc_file ∷ []

unfoldable pub write_all : ProcText → List Write → ProcText
write_all s [] = s
write_all s (w ∷ ws) = write_all (my_proc_write s w).0 ws

-- The bytes of the last write that has succeeded.
unfoldable pub last_written : Option (List ℕ) → List Write → Option (List ℕ)
last_written o [] = o
last_written o (w ∷ ws) = last_written (if w.tmp_ok && w.copied then some w.bytes else o) ws

-- A text up to its first zero byte.
unfoldable pub before_nul : List ℕ → List ℕ
before_nul [] = []
before_nul (b ∷ bs) = let rest = before_nul bs in if b == 0 then [] else b ∷ rest

c_string-before_nul : (bs : List ℕ) → c_string (bs ++ (0 ∷ [])) ≡ some (before_nul bs)
unfolding c_string before_nul
c_string-before_nul [] = refl
c_string-before_nul (b ∷ bs) = rw (c_string-before_nul bs) (ground arith)

-- The buffer and the allocations that stand for a text.
abbrev terminated : Option (List ℕ) → Option (List ℕ)
terminated none = none
terminated (some bytes) = some (bytes ++ (0 ∷ []))

abbrev pub buffers : Option (List ℕ) → ℕ
buffers none = 0
buffers (some bytes) = 1

record Holds (o : Option (List ℕ)) (s : ProcText) : Type 0 where
  text : s.str ≡ terminated o
  allocated : outstanding memory 0 s.log ≡ some (buffers o)

replaced :
    (o : Option (List ℕ))
    → outstanding memory (buffers o) (taken memory ∷ freed (terminated o)) ≡ some 1
unfolding outstanding
replaced none = refl
replaced (some bytes) = refl

tried :
    (o : Option (List ℕ))
    → outstanding memory (buffers o) (taken memory ∷ given memory ∷ []) ≡ some (buffers o)
unfolding outstanding
tried none = refl
tried (some bytes) = refl

my_proc_write-Holds :
    (o : Option (List ℕ)) (s : ProcText) (w : Write)
    → Holds o s
    → Holds (if w.tmp_ok && w.copied then some w.bytes else o) (my_proc_write s w).0
unfolding my_proc_write
my_proc_write-Holds o s w holds = elim (Bool-cases w.tmp_ok) [
  | inr bad ↦ rw bad holds
  | inl ok ↦ elim (Bool-cases w.copied) [
    | inr bad ↦
        rw (ok, bad)
          (record {
            text = holds.text;
            allocated =
                outstanding-append memory 0 (buffers o) s.log (taken memory ∷ given memory ∷ [])
                  holds.allocated
                ∙ tried o;
          })
    | inl good ↦
        rw (ok, good)
          (record {
            text = refl;
            allocated = rw holds.text (
                outstanding-append memory 0 (buffers o) s.log (taken memory ∷ freed (terminated o))
                  holds.allocated
                ∙ replaced o);
          })
  ]
]

write_all-Holds :
    (o : Option (List ℕ)) (s : ProcText) (ws : List Write)
    → Holds o s
    → Holds (last_written o ws) (write_all s ws)
unfolding last_written write_all
write_all-Holds o s [] holds = holds
write_all-Holds o s (w ∷ ws) holds =
    write_all-Holds (if w.tmp_ok && w.copied then some w.bytes else o) (my_proc_write s w).0 ws
      (my_proc_write-Holds o s w holds)

-- What the file shows for a text.
abbrev pub line : Option (List ℕ) → Option (List ℕ)
line none = none
line (some bytes) = some (before_nul bytes ++ (10 ∷ []))

shown : (o : Option (List ℕ)) (s : ProcText) → s.str ≡ terminated o → (my_proc_show s).0 ≡ line o
unfolding my_proc_show
shown none s e = rw e refl
shown (some bytes) s e = rw (e, c_string-before_nul bytes) refl

-- After any writes, of which each may fail to get its memory or its bytes, the file shows the bytes of
-- the last one that succeeded, up to the first zero byte, and a newline, or nothing of its own if none
-- did; no more than that one buffer is allocated, and the unload does not free it.
pub write_all-my_proc_show :
    (ws : List Write)
    → let s = write_all no_text ws in
      let kept = last_written none ws in
      ((my_proc_show s).0 ≡ line kept)
      × (outstanding memory 0 s.log ≡ some (buffers kept))
      × (outstanding memory 0 (s.log ++ hello_exit) ≡ some (buffers kept))
unfolding hello_exit outstanding
write_all-my_proc_show ws =
    let holds = write_all-Holds none no_text ws (record { text = refl; allocated = refl }) in
    (
      shown (last_written none ws) (write_all no_text ws) holds.text,
      holds.allocated,
      outstanding-append memory 0 (buffers (last_written none ws)) (write_all no_text ws).log
          hello_exit holds.allocated,
    )
