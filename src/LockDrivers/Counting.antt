-- ===== src/LockDrivers/Counting.antt =====
-- The threads of Atomic/atomic1.c, which share a counter and a word of bits without a lock. An
-- `atomic_inc` and a `test_and_change_bit` are single steps, in any order among the threads.
use linux_kernel_development.Prelude.{
  if◌then◌else◌, ℕ, ◌+◌, ◌-◌, ◌*◌, ◌/◌, ◌%◌, ◌^◌, ◌==◌, ◌≡◌, ◌<◌, refl, List, [], ◌∷◌, arith, ◌++◌,
}
use linux_kernel_development.LockDrivers.Guarded.{update, update-all}

-- `test_global_variable`, an `atomic_t`, and `etc_bit_check`. `changes` is no variable of the code: it
-- counts the `test_and_change_bit`s.
pub record Shared : Type 0 where
  pub test_global_variable : ℕ
  pub etc_bit_check : ℕ
  pub changes : ℕ

abbrev pub int_mod : ℕ
int_mod = 2 ^ 32

unfoldable pub atomic_inc : ℕ → ℕ
atomic_inc v = (v + 1) % int_mod

-- Bit `nr` of a word.
unfoldable pub bit : ℕ → ℕ → ℕ
bit nr word = word / 2 ^ nr % 2

-- The word with bit `nr` changed, and the bit before.
unfoldable pub test_and_change_bit : ℕ → ℕ → ℕ × ℕ
test_and_change_bit nr word =
    (if bit nr word == 1 then word - 2 ^ nr else word + 2 ^ nr, bit nr word)

-- Where a thread stands; before the print with the number of changes before its own, and with its
-- `prev_value`.
pub data Place : Type 0 where
  top counting changing asleep returned : Place
  printing : ℕ → ℕ → Place

-- A step of the loop of a thread function.
pub data CountFunction (m : Shared) : Place → Shared → Place → Type 0 where
  stops : CountFunction m top m returned
  goes_on : CountFunction m top m counting
  counts :
      CountFunction m counting
        (record m { test_global_variable = atomic_inc m.test_global_variable })
        changing
  changes_bit :
      CountFunction m changing
        (record m {
          etc_bit_check = (test_and_change_bit 1 m.etc_bit_check).0;
          changes = m.changes + 1;
        })
        (printing m.changes (test_and_change_bit 1 m.etc_bit_check).1)
  prints : {turn prev : ℕ} → CountFunction m (printing turn prev) m asleep
  wakes : CountFunction m asleep m top

-- What a step prints of `prev_value`, with the number of changes before the thread's own.
abbrev pub prints_of : {m m' : Shared} {p p' : Place} → CountFunction m p m' p' → List (ℕ × ℕ)
prints_of (prints {turn} {prev}) = (turn, prev) ∷ []
prints_of _ = []

abbrev pub counts_one : {m m' : Shared} {p p' : Place} → CountFunction m p m' p' → ℕ
counts_one counts = 1
counts_one _ = 0

-- The threads of the module, with the count of the `atomic_inc`s and what has been printed so far, the
-- last print first.
pub record Counters : Type 0 where
  pub shared : Shared
  pub place : ℕ → Place
  pub counted : ℕ
  pub printed : List (ℕ × ℕ)

pub data CountStep (s : Counters) : Counters → Type 0 where
  picks :
      (i : ℕ) {m : Shared} {p : Place} (mv : CountFunction s.shared (s.place i) m p)
      → CountStep s (record {
        shared = m;
        place = update s.place i p;
        counted = s.counted + counts_one mv;
        printed = prints_of mv ++ s.printed;
      })

pub data CountReach : Counters → Type 0 where
  start : CountReach (record {
    shared = record { test_global_variable = 0; etc_bit_check = 0; changes = 0 };
    place = λ _. top;
    counted = 0;
    printed = [];
  })
  later : {s t : Counters} → CountReach s → CountStep s t → CountReach t

-- What is printed for a turn is its parity.
abbrev pub InTurn : ℕ → List (ℕ × ℕ) → Type 0
InTurn n [] = Unit {0}
InTurn n ((turn, prev) ∷ ps) = (turn < n) × (prev ≡ turn % 2) × InTurn n ps

-- What a thread will print is its parity as well.
abbrev Holds : ℕ → Place → Type 0
Holds n (printing turn prev) = (turn < n) × (prev ≡ turn % 2)
Holds n _ = Unit {0}

record Alternates (s : Counters) : Type 0 where
  all_counted : s.shared.test_global_variable ≡ s.counted % int_mod
  bit_set : s.shared.etc_bit_check ≡ 2 * (s.shared.changes % 2)
  held : (i : ℕ) → Holds s.shared.changes (s.place i)
  in_turn : InTurn s.shared.changes s.printed

Holds-grows : (n : ℕ) (p : Place) → Holds n p → Holds (n + 1) p
Holds-grows n (printing turn prev) (less, same) = (omega arith, same)
Holds-grows n _ h = tt

InTurn-grows : (n : ℕ) (ps : List (ℕ × ℕ)) → InTurn n ps → InTurn (n + 1) ps
InTurn-grows n [] h = tt
InTurn-grows n ((turn, prev) ∷ ps) (less, same, rest) = (omega arith, same, InTurn-grows n ps rest)

bit_before : (word n : ℕ) → word ≡ 2 * (n % 2) → bit 1 word ≡ n % 2
unfolding bit
bit_before word n set = omega (arith, set)

CountStep-Alternates : {s t : Counters} → CountStep s t → Alternates s → Alternates t
unfolding atomic_inc bit test_and_change_bit
CountStep-Alternates {s} (picks i mv) old = moved mv (old.held i)
  where
    stays :
        (p' : Place)
        → Holds s.shared.changes p'
        → (j : ℕ) → Holds s.shared.changes (update s.place i p' j)
    stays p' new = update-all (Holds s.shared.changes) i new old.held

    moves_on :
        (p' : Place)
        → Holds s.shared.changes p'
        → Alternates (record s { place = update s.place i p'; counted = s.counted + 0 })
    moves_on p' new = record {
      all_counted = omega (arith, old.all_counted);
      bit_set = old.bit_set;
      held = stays p' new;
      in_turn = old.in_turn;
    }

    moved :
        {p p' : Place} {m : Shared} (mv : CountFunction s.shared p m p')
        → Holds s.shared.changes p
        → Alternates (record {
          shared = m;
          place = update s.place i p';
          counted = s.counted + counts_one mv;
          printed = prints_of mv ++ s.printed;
        })
    moved counts here = record {
      all_counted = omega (arith, old.all_counted);
      bit_set = old.bit_set;
      held = stays changing tt;
      in_turn = old.in_turn;
    }
    moved changes_bit here = record {
      all_counted = omega (arith, old.all_counted);
      bit_set = ground (arith, old.bit_set);
      held =
          update-all (Holds (s.shared.changes + 1)) i
            (omega arith, bit_before s.shared.etc_bit_check s.shared.changes old.bit_set)
            (λ j. Holds-grows s.shared.changes (s.place j) (old.held j));
      in_turn = InTurn-grows s.shared.changes s.printed old.in_turn;
    }
    moved prints (less, same) = record {
      all_counted = omega (arith, old.all_counted);
      bit_set = old.bit_set;
      held = stays asleep tt;
      in_turn = (less, same, old.in_turn);
    }
    moved stops here = moves_on returned tt
    moved goes_on here = moves_on counting tt
    moved wakes here = moves_on top tt

-- However the threads are interleaved, and however many there are, the counter is the number of the
-- `atomic_inc`s so far, modulo 2^32; each value of the bit that a thread has printed is the parity of
-- the number of `test_and_change_bit`s before its own; and no other bit of the word is ever set.
pub counters-Alternate :
    {s : Counters}
    → CountReach s
    → (s.shared.test_global_variable ≡ s.counted % int_mod)
      × InTurn s.shared.changes s.printed
      × (s.shared.etc_bit_check ≡ 2 * (s.shared.changes % 2))
counters-Alternate {s} r = let a : Alternates s = all r in (a.all_counted, a.in_turn, a.bit_set)
  where
    all : {t : Counters} → CountReach t → Alternates t
    all start = record { all_counted = refl; bit_set = refl; held = λ _. tt; in_turn = tt }
    all (later r st) = CountStep-Alternates st (all r)
