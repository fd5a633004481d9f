-- ===== src/CharDevice/Read.antt =====
-- What the reads of ReadonlyCharacter/char1.c return.
use linux_kernel_development.Prelude.{
  take-add, ℕ, zero, suc, ◌+◌, ◌≡◌, refl, List, [], ◌∷◌, ◌++◌, length, drop, arith, min, take,
  get_or, ◌==◌, if◌then◌else◌, Bool-cases, inl, inr, ◌∙◌, ap, ap₂, sym, take-nil, drop-nil,
  length-take,
}
use linux_kernel_development.CharDevice.{CharDev, char_at, read_loop, device_open, device_read}

-- The characters before the first zero.
abbrev pub c_string : List ℕ → List ℕ
c_string [] = []
c_string (c ∷ cs) = if c == 0 then [] else (c ∷ c_string cs)

-- The message from the pointer on.
abbrev pub unread : CharDev → List ℕ
unread d = c_string (drop d.msg_ptr d.msg)

c_string-drop :
    (xs : List ℕ) (i : ℕ)
    → c_string (drop i xs)
      ≡ (if get_or xs i 0 == 0 then [] else (get_or xs i 0 ∷ c_string (drop (i + 1) xs)))
c_string-drop [] zero = refl
c_string-drop [] (suc i) = refl
c_string-drop (x ∷ xs) zero = refl
c_string-drop (x ∷ xs) (suc i) =
    let e : suc i + 1 ≡ suc (i + 1) = omega arith in rw e (c_string-drop xs i)

read_loop_lem :
    (d : CharDev) (len ptr : ℕ)
    → ((read_loop d len ptr).0 ≡ take len (c_string (drop ptr d.msg)))
      × (c_string (drop (read_loop d len ptr).1 d.msg) ≡ drop len (c_string (drop ptr d.msg)))
unfolding read_loop
read_loop_lem d zero ptr = (refl, refl)
read_loop_lem d (suc len) ptr =
    let (bytes, left) = read_loop_lem d len (ptr + 1) in
    elim (Bool-cases (char_at d ptr == 0)) [
      | inl ended ↦
          let over : c_string (drop ptr d.msg) ≡ [] = c_string-drop d.msg ptr ∙ rw ended refl in
          rw (ended, over) (refl, refl)
      | inr more ↦
          let next : c_string (drop ptr d.msg) ≡ char_at d ptr ∷ c_string (drop (ptr + 1) d.msg) =
            c_string-drop d.msg ptr ∙ rw more refl in
          rw (more, next) (rw bytes refl, left)
    ]

-- What follows the terminator is not part of the string.
c_string-append : (xs ys : List ℕ) → c_string ((xs ++ (0 ∷ [])) ++ ys) ≡ c_string xs
c_string-append [] ys = refl
c_string-append (x ∷ xs) ys = rw (c_string-append xs ys) refl

-- A read hands over the first `len` bytes of what is unread of the message, or all of it if it is
-- shorter, returns how many these are, and leaves the rest unread.
pub device_read_lem :
    (d : CharDev) (len : ℕ)
    → let (d', bytes, count) = device_read d len in
      (bytes ≡ take len (unread d))
      × (count ≡ min len (length (unread d)))
      × (unread d' ≡ drop len (unread d))
unfolding device_read
device_read_lem d len =
    let (bytes, left) = read_loop_lem d len d.msg_ptr in
    elim (Bool-cases (char_at d d.msg_ptr == 0)) [
      | inl ended ↦
          let over : unread d ≡ [] = c_string-drop d.msg d.msg_ptr ∙ rw ended refl in
          rw (ended, over) (sym (take-nil len), omega arith, sym (drop-nil len))
      | inr more ↦ rw more (bytes, ap length bytes ∙ length-take len (unread d), left)
    ]

-- Reads of the given lengths, one after the other, and the bytes that they hand over.
abbrev pub reads : CharDev → List ℕ → List ℕ
reads d [] = []
reads d (len ∷ lens) = let (d', bytes, count) = device_read d len in bytes ++ reads d' lens

abbrev pub total : List ℕ → ℕ
total [] = 0
total (n ∷ ns) = n + total ns

reads-unread : (d : CharDev) (lens : List ℕ) → reads d lens ≡ take (total lens) (unread d)
reads-unread d [] = refl
reads-unread d (len ∷ lens) =
    let (bytes, count, left) = device_read_lem d len in
    ap₂ (λ xs ys. xs ++ ys) bytes
      (reads-unread (device_read d len).0 lens ∙ ap (take (total lens)) left)
    ∙ take-add len (total lens) (unread d)

-- If what `sprintf` renders has no zero among its characters, reads of any lengths after an open hand
-- over, together, the start of the message that the open has rendered, of the lengths' sum; and all
-- of it, if the sum is enough.
pub reads_message :
    (render : ℕ → List ℕ) (d : CharDev) (lens : List ℕ)
    → ((c : ℕ) → c_string (render c) ≡ render c)
    → reads (device_open render d).0 lens ≡ take (total lens) (render d.counter)
unfolding device_open
reads_message render d lens text =
    reads-unread (device_open render d).0 lens
    ∙ ap (take (total lens)) (c_string-append (render d.counter) _ ∙ text d.counter)
