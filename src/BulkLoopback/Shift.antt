-- ===== src/BulkLoopback/Shift.antt =====
-- What the loop of `test_usb1_read` of USB/usbdrv4.c does to the buffer.
use linux_kernel_development.Prelude.{
  ap₂, ◌∙◌, length-drop, ◌∙◌, ℕ, zero, suc, ◌+◌, ◌≤◌, ◌<◌, ◌≡◌, ◌==◌, ltb, leb, refl, List, [], ◌∷◌,
  get_or, set, take, drop, length, arith, length-set, if◌then◌else◌,
}
use linux_kernel_development.BulkLoopback.Read.{move_down}

pub length-move_down :
    (rounds cnt j : ℕ) (buf : List ℕ) → length (move_down rounds cnt j buf) ≡ length buf
unfolding move_down
length-move_down zero cnt j buf = refl
length-move_down (suc rounds) cnt j buf =
    length-move_down rounds cnt (j + 1) (set buf j (get_or buf (j + cnt) 0))
    ∙ length-set buf j (get_or buf (j + cnt) 0)

get_or-set :
    (xs : List ℕ) (i j v : ℕ)
    → i < length xs
    → get_or (set xs i v) j 0 ≡ (if i == j then v else get_or xs j 0)
get_or-set [] i j v h = elim h [ ]
get_or-set (x ∷ xs) zero zero v h = refl
get_or-set (x ∷ xs) zero (suc j) v h = ground arith
get_or-set (x ∷ xs) (suc i) zero v h = ground arith
get_or-set (x ∷ xs) (suc i) (suc j) v h = ground (arith, get_or-set xs i j v)

get_or-move_down :
    (rounds cnt j i : ℕ) (buf : List ℕ)
    → j + rounds + cnt ≤ length buf
    → get_or (move_down rounds cnt j buf) i 0 ≡ (
        if leb j i
        then (if ltb i (j + rounds) then get_or buf (i + cnt) 0 else get_or buf i 0)
        else get_or buf i 0)
unfolding move_down
get_or-move_down zero cnt j i buf h = ground arith
get_or-move_down (suc rounds) cnt j i buf h =
    let v = get_or buf (j + cnt) 0 in
    ground (
      arith,
      get_or-move_down rounds cnt (j + 1) i (set buf j v),
      get_or-set buf j i v,
      get_or-set buf j (i + cnt) v,
      length-set buf j v,
    )

take_ext :
    (n : ℕ) (xs ys : List ℕ)
    → n ≤ length xs
    → n ≤ length ys
    → ((i : ℕ) → i < n → get_or xs i 0 ≡ get_or ys i 0)
    → take n xs ≡ take n ys
take_ext zero xs ys h k e = refl
take_ext (suc n) [] ys h k e = absurd (omega arith)
take_ext (suc n) (x ∷ xs) [] h k e = absurd (omega arith)
take_ext (suc n) (x ∷ xs) (y ∷ ys) h k e =
    ap₂ (λ z zs. z ∷ zs) (e 0 (omega arith))
      (take_ext n xs ys (omega arith) (omega arith) (λ i lt. e (suc i) (omega arith)))

get_or-drop : (n i : ℕ) (xs : List ℕ) → get_or (drop n xs) i 0 ≡ get_or xs (i + n) 0
get_or-drop zero i xs = let e : i + 0 ≡ i = omega arith in rw e
get_or-drop (suc n) i [] = refl
get_or-drop (suc n) i (x ∷ xs) =
    let e : i + suc n ≡ suc (i + n) = omega arith in rw e (get_or-drop n i xs)

-- The loop moves the bytes behind the first `cnt` to the front.
pub take-move_down :
    (rounds cnt : ℕ) (buf : List ℕ)
    → rounds + cnt ≤ length buf
    → take rounds (move_down rounds cnt 0 buf) ≡ take rounds (drop cnt buf)
take-move_down rounds cnt buf h =
    take_ext rounds (move_down rounds cnt 0 buf) (drop cnt buf)
      (omega (arith, length-move_down rounds cnt 0 buf)) (omega (arith, length-drop cnt buf))
      (λ i lt. ground (arith, get_or-move_down rounds cnt 0 i buf, get_or-drop cnt i buf))
