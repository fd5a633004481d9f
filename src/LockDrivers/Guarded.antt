-- ===== src/LockDrivers/Guarded.antt =====
-- The threads of Mutex/mtx1.c, Semaphore/sem1.c and Spinlock/spin1.c: each locks, adds one to
-- `test_global_variable`, prints it and unlocks. The lock is the kernel's: an interface with what it
-- promises. The other accesses to memory are single steps, in any order among the threads.
use linux_kernel_development.Prelude.{ℕ, ◌+◌, ◌%◌, ◌^◌, ◌≡◌, Option, none, some, ite, ℕ_discrete}

-- A lock: `acquire l i` is what thread `i` finds, `none` while it has to wait. A semaphore that starts
-- at 1 is such a lock: no signal interrupts a `down_interruptible` of a kernel thread that allows none.
pub record Lock : Type 1 where
  pub State : Type 0
  pub free : State
  pub acquire : State → ℕ → Option State
  pub release : State → ℕ → State
  pub holder : State → Option ℕ
  pub holder_free : holder free ≡ none
  pub held_by_none : (l l' : State) (i : ℕ) → acquire l i ≡ some l' → holder l ≡ none
  pub held_by_taker : (l l' : State) (i : ℕ) → acquire l i ≡ some l' → holder l' ≡ some i
  pub release_frees : (l : State) (i : ℕ) → holder l ≡ some i → holder (release l i) ≡ none

-- Where a thread stands, with the value that it has loaded.
pub data Pc : Type 0 where
  top entering inside written shown asleep returned : Pc
  loaded : ℕ → Pc

-- `unsigned long`
abbrev pub long_mod : ℕ
long_mod = 2 ^ 64

abbrev pub update {ℓ} : {A : Type ℓ} → (ℕ → A) → ℕ → A → ℕ → A
update f i a j = ite (ℕ_discrete i j) a (f j)

-- What holds of the new value and of all the old ones holds of the updated ones.
pub update-all {ℓ ℓ'} :
    {A : Type ℓ} (P : A → Type ℓ') {f : ℕ → A} (i : ℕ) {a : A}
    → P a
    → ((j : ℕ) → P (f j))
    → (j : ℕ) → P (update f i a j)
update-all P {f} i {a} new old j = elim (ℕ_discrete i j) as (λ d. P (ite d a (f j))) [
  | yes e ↦ new
  | no ne ↦ old j
]

module _ (lock : Lock) where
  open lock use {State, free, acquire, release}

  -- The variables at file scope.
  pub record Mem : Type 0 where
    pub state : State
    pub test_global_variable : ℕ

  -- A step of the loop of a thread function, by thread `i`.
  pub data ThreadFunction (i : ℕ) (m : Mem) : Pc → Mem → Pc → Type 0 where
    stops : ThreadFunction i m top m returned
    goes_on : ThreadFunction i m top m entering
    locks :
        {l : State}
        → acquire m.state i ≡ some l
        → ThreadFunction i m entering (record m { state = l }) inside
    loads : ThreadFunction i m inside m (loaded m.test_global_variable)
    stores :
        {v : ℕ}
        → ThreadFunction i m
            (loaded v)
            (record m { test_global_variable = (v + 1) % long_mod })
            written
    prints : ThreadFunction i m written m shown
    unlocks : ThreadFunction i m shown (record m { state = release m.state i }) asleep
    wakes : ThreadFunction i m asleep m top

  -- The step that completes an increment.
  abbrev pub adds : {i : ℕ} {m m' : Mem} {p p' : Pc} → ThreadFunction i m p m' p' → ℕ
  adds stores = 1
  adds _ = 0

  -- The threads of the module. `added` counts the increments that have been completed.
  pub record Threads : Type 0 where
    pub mem : Mem
    pub pc : ℕ → Pc
    pub added : ℕ

  pub data Step (s : Threads) : Threads → Type 0 where
    picks :
        (i : ℕ) {m : Mem} {p : Pc} (mv : ThreadFunction i s.mem (s.pc i) m p)
        → Step s (record { mem = m; pc = update s.pc i p; added = s.added + adds mv })

  -- `test_global_variable` starts at 0, and the lock free.
  abbrev pub loaded_module : Threads
  loaded_module = record {
    mem = record { state = free; test_global_variable = 0 };
    pc = λ _. top;
    added = 0;
  }

  pub data Reach : Threads → Type 0 where
    start : Reach loaded_module
    later : {s t : Threads} → Reach s → Step s t → Reach t
