-- ===== src/WaitQueue/Fifo.antt =====
-- WaitQueue/wait1.c against a queue of bytes: the ring holds the bytes from `head` up to `tail`.
use linux_kernel_development.Prelude.{
  ℕ, zero, suc, ◌+◌, ◌-◌, ◌%◌, ◌<◌, ◌≡◌, ◌≢◌, refl, sym, ap, ap₂, none, some, List, [], ◌∷◌, ◌++◌,
  length, get_or, set, get_or-set_self, get_or-set_ne, pos, arith, ◌∙◌, Bool, true, false, ◌↔◌,
  eq_ℤ, ◌==◌,
}
use linux_kernel_development.WaitQueue.{
  ringsize, Driver, Wake, asleep, returned, insert, write_loop, prev_of, my_write, remove,
  read_loop, my_read,
}
use linux_kernel_development.WaitQueue.Bounds.{IsValid}

-- `n` bytes of the ring from index `h` on.
abbrev pub window : List ℕ → ℕ → ℕ → List ℕ
window buf h zero = []
window buf h (suc n) = get_or buf h 0 ∷ window buf ((1 + h) % ringsize) n

-- The number of bytes between the indices, going round at the end of the ring.
abbrev pub count : Driver → ℕ
count d = (d.tail + ringsize - d.head) % ringsize

-- The queue of bytes written and not yet read, the oldest first.
abbrev pub contents : Driver → List ℕ
contents d = window d.ring d.head (count d)

pub length-window : (buf : List ℕ) (h n : ℕ) → length (window buf h n) ≡ n
length-window buf h zero = refl
length-window buf h (suc n) = ap suc (length-window buf ((1 + h) % ringsize) n)

-- Setting the slot behind a window that is not the whole ring extends the window.
window-set :
    (buf : List ℕ) (x h n t : ℕ)
    → length buf ≡ ringsize
    → h < ringsize
    → n < ringsize
    → t ≡ (h + n) % ringsize
    → window (set buf t x) h (suc n) ≡ window buf h n ++ (x ∷ [])
window-set buf x h zero t full hh hn e =
    let same : t ≡ h = omega arith in ap (λ v. v ∷ []) (subst_slot same)
  where
    subst_slot : t ≡ h → get_or (set buf t x) h 0 ≡ x
    subst_slot same = rw (← same) (get_or-set_self buf t x 0 (omega arith))
window-set buf x h (suc n) t full hh hn e =
    ap₂ ◌∷◌ (get_or-set_ne buf t h x 0 (omega arith))
      (window-set buf x ((1 + h) % ringsize) n t full (omega arith) (omega arith) (omega arith))

-- Setting the slot behind a window leaves the window.
window-set_behind :
    (buf : List ℕ) (x h n t : ℕ)
    → h < ringsize
    → n < ringsize
    → t ≡ (h + n) % ringsize
    → window (set buf t x) h n ≡ window buf h n
window-set_behind buf x h zero t hh hn e = refl
window-set_behind buf x h (suc n) t hh hn e =
    ap₂ ◌∷◌ (get_or-set_ne buf t h x 0 (omega arith))
      (window-set_behind buf x ((1 + h) % ringsize) n t (omega arith) (omega arith) (omega arith))

-- A write whose byte cannot be read from the user leaves the bytes in the ring.
pub contents-insert_fault :
    (d : Driver) → IsValid d → contents (record d { ring = set d.ring d.tail 0 }) ≡ contents d
contents-insert_fault d v =
    window-set_behind d.ring 0 d.head (count d) d.tail v.head_in (omega arith)
      (omega (arith, v.head_in, v.tail_in))

-- A window is its first byte and the window behind it.
window_of_ne_zero :
    (buf : List ℕ) (h n : ℕ)
    → n ≢ 0
    → window buf h n ≡ get_or buf h 0 ∷ window buf ((1 + h) % ringsize) (n - 1)
window_of_ne_zero buf h zero p = absurd (p refl)
window_of_ne_zero buf h (suc n) p = ap (λ k. window buf h (suc k)) (omega arith)

-- On a valid state that is not full, an insertion of the user's byte appends it to the contents,
-- and returns 1.
pub contents-insert :
    (d : Driver) (b : ℕ)
    → IsValid d
    → suc (count d) < ringsize
    → (d' : Driver) × (insert d (some b) ≡ returned d' (pos 1) none)
      × (contents d' ≡ contents d ++ (b ∷ []))
unfolding insert
contents-insert d b v room = (
  record d { ring = set d.ring d.tail b; tail = (1 + d.tail) % ringsize; condition = 1 },
  refl,
  longer,
)
  where
    more : ((1 + d.tail) % ringsize + ringsize - d.head) % ringsize ≡ suc (count d)
    more = omega arith

    longer :
        window
          (set d.ring d.tail b)
          d.head
          (((1 + d.tail) % ringsize + ringsize - d.head) % ringsize)
        ≡ contents d ++ (b ∷ [])
    longer = rw more (
        window-set d.ring b d.head (count d) d.tail v.ring_full_length (omega arith) (omega arith)
          (omega arith))

-- A call of `my_write` with a readable byte, on a valid state with fewer than 511 bytes in the ring,
-- returns 1 without sleeping, and appends that byte behind the bytes in the ring.
pub my_write_appends :
    (d : Driver) (b : ℕ) (ws : List Wake)
    → IsValid d
    → suc (count d) < ringsize
    → (d' : Driver) × (my_write d (some b) ws ≡ returned d' (pos 1) none)
      × (contents d' ≡ contents d ++ (b ∷ []))
unfolding my_write
my_write_appends d b ws v room =
    let (d', done, longer) = contents-insert d b v room in (d', passes ws ∙ done, longer)
  where
    differs : eq_ℤ (prev_of d) (pos d.tail) ≡ false
    differs = ground arith

    passes : (ws : List Wake) → write_loop (prev_of d) (some b) d ws ≡ insert d (some b)
    passes [] = rw differs
    passes (w ∷ ws) = rw differs

-- A call of `my_read` with a writable buffer, on a valid state with bytes in the ring, returns 1
-- without sleeping, and hands over and takes out the oldest of them.
pub my_read_takes :
    (d : Driver) (ws : List Wake)
    → IsValid d
    → count d ≢ 0
    → (d' : Driver) × (b : ℕ) × (my_read d false ws ≡ returned d' (pos 1) (some b))
      × (contents d ≡ b ∷ contents d')
unfolding my_read
my_read_takes d ws v some_there = (
  record d { head = (1 + d.head) % ringsize; condition = 1 },
  get_or d.ring d.head 0,
  passes ws,
  shorter,
)
  where
    differs : (d.head == d.tail) ≡ false
    differs = ground arith

    passes : (ws : List Wake) → read_loop d.head false d ws ≡ remove d false
    passes [] = rw differs
    passes (w ∷ ws) = rw differs

    less : (d.tail + ringsize - (1 + d.head) % ringsize) % ringsize ≡ count d - 1
    less = omega arith

    shorter :
        contents d
        ≡ get_or d.ring d.head 0
          ∷ window d.ring
              ((1 + d.head) % ringsize)
              ((d.tail + ringsize - (1 + d.head) % ringsize) % ringsize)
    shorter = rw less (window_of_ne_zero d.ring d.head (count d) some_there)

pub empty_iff : (d : Driver) → (contents d ≡ []) ↔ (count d ≡ 0)
empty_iff d = (λ e. sym (length-window d.ring d.head (count d)) ∙ ap length e, λ e. rw e)

module _ (d : Driver) (v : IsValid d) where
  pub prev-eq-tail_of_full : count d ≡ 511 → d.head ≢ 0 → eq_ℤ (prev_of d) (pos d.tail) ≡ true
  prev-eq-tail_of_full full off_zero = ground arith

  read_asleep_iff :
      (fault : Bool) → (my_read d fault [] ≡ asleep (record d { condition = 0 })) ↔ (count d ≡ 0)
  unfolding my_read
  read_asleep_iff fault = (λ h. ground arith, λ h. ground arith)

  write_asleep_iff :
      (b : ℕ)
      → (my_write d (some b) [] ≡ asleep (record d { condition = 0 }))
        ↔ ((count d ≡ 511) × (d.head ≢ 0))
  unfolding my_write
  write_asleep_iff b = (λ h. ground arith, λ h. ground arith)

-- On a valid state, with no wake-up yet, `my_read` is asleep exactly when the ring is empty, and
-- `my_write` exactly when the ring holds 511 bytes and `head` is not 0.
sleeps_iff :
    (d : Driver) (b : ℕ) (fault : Bool)
    → IsValid d
    → ((my_read d fault [] ≡ asleep (record d { condition = 0 })) ↔ (contents d ≡ []))
      × ((my_write d (some b) [] ≡ asleep (record d { condition = 0 }))
          ↔ ((length (contents d) ≡ 511) × (d.head ≢ 0)))
sleeps_iff d b fault v = (
  (
    λ h. (empty_iff d).1 ((read_asleep_iff d v fault).0 h),
    λ h. (read_asleep_iff d v fault).1 ((empty_iff d).0 h),
  ),
  rw (length-window d.ring d.head (count d)) (write_asleep_iff d v b),
)

-- A call of `my_write` on a valid state whose ring holds 511 bytes, with `head` at 0, does not sleep:
-- it returns 1 and leaves the ring empty, so all the bytes written before are lost.
pub my_write_loses :
    (d : Driver) (b : ℕ) (ws : List Wake)
    → IsValid d
    → d.head ≡ 0
    → length (contents d) ≡ 511
    → (d' : Driver) × (my_write d (some b) ws ≡ returned d' (pos 1) none) × (contents d' ≡ [])
unfolding my_write
my_write_loses d b ws v at_zero full = (
  record d { ring = set d.ring d.tail b; tail = (1 + d.tail) % ringsize; condition = 1 },
  passes ws,
  empty,
)
  where
    at_end : d.tail ≡ 511
    at_end = omega (arith, length-window d.ring d.head (count d))

    differs : eq_ℤ (prev_of d) (pos d.tail) ≡ false
    differs = ground arith

    passes : (ws : List Wake) → write_loop (prev_of d) (some b) d ws ≡ insert d (some b)
    passes [] = rw differs
    passes (w ∷ ws) = rw differs

    none_left : ((1 + d.tail) % ringsize + ringsize - d.head) % ringsize ≡ 0
    none_left = omega (arith, at_end)

    empty :
        window
          (set d.ring d.tail b)
          d.head
          (((1 + d.tail) % ringsize + ringsize - d.head) % ringsize)
        ≡ []
    empty = rw none_left
