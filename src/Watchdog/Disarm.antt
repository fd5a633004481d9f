-- ===== src/Watchdog/Disarm.antt =====
-- How the program of Watchdog/watchdog.c leaves the device.
use linux_kernel_development.Prelude.{
  ◌==◌, ◌≡◌, Bool, true, false, not, ◌&&◌, List, [], ◌∷◌, ◌++◌, ◌⊎◌,
}
use linux_kernel_development.Watchdog.{
  Call, sleep, write_v, close_file, Parse, stop, Ending, killed, exited,
}

-- A call that is neither the write of V nor the close, nor an empty sleep.
abbrev pub is_plain : Call → Bool
is_plain write_v = false
is_plain close_file = false
is_plain (sleep n) = not (n == 0)
is_plain c = true

abbrev pub all_plain : List Call → Bool
all_plain [] = true
all_plain (c ∷ cs) = is_plain c && all_plain cs

-- What holds while the options are parsed.
record Plain (s : Parse) : Type 0 where
  calls_plain : all_plain s.calls ≡ true
  rate : (s.ping_rate == 0) ≡ false

-- No V is written.
abbrev pub never_writes : List Call → Bool
never_writes [] = true
never_writes (write_v ∷ cs) = false
never_writes (c ∷ cs) = never_writes cs

-- The calls are, or begin, some plain ones, the write of V and the close.
abbrev pub Begins : List Call → Type 0
Begins calls =
    (before : List Call) × (rest : List Call) × (calls ++ rest ≡ before ++ stop)
    × (all_plain before ≡ true)

-- What is claimed of a run: a device that cannot be opened, or is no watchdog, gets no V; the other
-- runs that are not killed make plain calls, then write V, then close; and one that is killed has
-- made the first of such calls, or has written no V.
abbrev pub Disarms : List Call × Ending → Type 0
Disarms (calls, exited rv) = never_writes calls ≡ true
Disarms (calls, killed) = (never_writes calls ≡ true) ⊎ Begins calls
Disarms (calls, e) = (before : List Call) × (calls ≡ before ++ stop) × (all_plain before ≡ true)
