-- ===== src/Chat/Lines.antt =====
-- What the loop over `getchar` puts into the buffer.
use linux_kernel_development.Prelude.{
  ℕ, suc, zero, ◌+◌, ◌-◌, ◌<◌, ◌≤◌, ◌≡◌, ◌≢◌, refl, ap, none, some, List, [], ◌∷◌, ◌++◌, replicate,
  set, length, length-append, append_assoc, arith, if◌then◌else◌, ◌==◌, ltb, true, false,
  Bool-cases, inl, inr, take,
}
use linux_kernel_development.Chat.{max_len, newline, zeroed, type_from, type_line}

-- No character of the text ends a line.
abbrev pub NoNewline : List ℕ → Type 0
NoNewline [] = Unit {0}
NoNewline (c ∷ cs) = (c ≢ newline) × NoNewline cs

set-append : (xs ys : List ℕ) (y c : ℕ) → set (xs ++ (y ∷ ys)) (length xs) c ≡ xs ++ (c ∷ ys)
set-append [] ys y c = refl
set-append (x ∷ xs) ys y c = ap (λ l. x ∷ l) (set-append xs ys y c)

-- With `done` in the buffer and `room` zeros behind it.
type_from-fits :
    (text done rest : List ℕ) (room : ℕ)
    → NoNewline text
    → length done + room ≡ max_len
    → length text < room
    → type_from (length done) (done ++ replicate room 0) (text ++ (newline ∷ rest))
      ≡ some (done ++ (text ++ (newline ∷ replicate (room - length text - 1) 0)), rest)
unfolding type_from
type_from-fits text done rest zero plain all fits = absurd (omega (arith, fits))
type_from-fits [] done rest (suc room) plain all fits =
    let here : ltb (length done) max_len ≡ true = ground arith in
    let left : suc room - 0 - 1 ≡ room = omega arith in rw (set-append, here, left) refl
type_from-fits (c ∷ text) done rest (suc room) plain all fits =
    let here : ltb (length done) max_len ≡ true = ground arith in
    let no_end : (c == newline) ≡ false = ground (arith, plain.0) in
    let longer : length (done ++ (c ∷ [])) ≡ length done + 1 = length-append done (c ∷ []) in
    let left : suc room - suc (length text) - 1 ≡ room - length text - 1 = omega arith in
    let next =
      type_from-fits text (done ++ (c ∷ [])) rest room plain.1 (omega (arith, longer, all))
        (omega (arith, fits)) in
    rw (set-append, here, no_end, left) (rw (longer, append_assoc, append_assoc) at next)

-- If no end of a line is among the characters that fit, the loop writes behind the end.
type_from-overruns :
    (input buff : List ℕ) (n k : ℕ)
    → NoNewline (take k input)
    → n + k ≡ max_len
    → type_from n buff input ≡ none
unfolding type_from
type_from-overruns [] buff n k plain all = refl
type_from-overruns (c ∷ input) buff n zero plain all = ground arith
type_from-overruns (c ∷ input) buff n (suc k) plain all =
    ground (
      arith,
      plain.0,
      type_from-overruns input (set buff n c) (n + 1) k plain.1 (omega (arith, all)),
    )

NoNewline-take-append :
    (k : ℕ) (text rest : List ℕ)
    → NoNewline text
    → k ≤ length text
    → NoNewline (take k (text ++ rest))
NoNewline-take-append zero text rest plain long = tt
NoNewline-take-append (suc k) [] rest plain long = absurd (omega (arith, long))
NoNewline-take-append (suc k) (c ∷ text) rest plain long =
    (plain.0, NoNewline-take-append k text rest plain.1 (omega (arith, long)))

-- A line of fewer than 80 characters is typed into the buffer, with its end behind it and zeros behind
-- that, and the input goes on after the line. A longer one is written over the end of the buffer.
pub type_line_lem :
    (text rest : List ℕ)
    → NoNewline text
    → type_line (text ++ (newline ∷ rest)) ≡ (
        if ltb (length text) max_len
        then some (text ++ (newline ∷ replicate (max_len - length text - 1) 0), rest)
        else none)
unfolding type_line
type_line_lem text rest plain = elim (Bool-cases (ltb (length text) max_len)) [
  | inl short ↦ rw short (type_from-fits text [] rest max_len plain refl (ground arith))
  | inr long ↦ rw long (
      type_from-overruns (text ++ (newline ∷ rest)) zeroed 0 max_len
        (NoNewline-take-append max_len text (newline ∷ rest) plain (ground arith)) refl)
]
