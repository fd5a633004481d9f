-- ===== src/Watchdog.antt =====
-- Watchdog/watchdog.c: the user program that keeps a watchdog alive, as the list of the system calls
-- that it makes on the device.
use linux_kernel_development.Prelude.{
  ℕ, zero, suc, ◌%◌, ◌==◌, Bool, true, false, not, List, [], ◌∷◌, ◌++◌, if◌then◌else◌, ℤ, pos, take,
  negsuc,
}
pub mod Disarm
pub mod Ticks
mod Tests

-- An option as `getopt_long` gives it, with its argument; numbers as `strtoul` reads them. `other` is
-- `-h`, and what is not an option.
pub data Opt : Type 0 where
  bootstatus disable enable : Opt
  pingrate timeout : ℕ → Opt
  gettimeout : Opt
  pretimeout : ℕ → Opt
  getpretimeout gettimeleft : Opt
  file : ℕ → Opt
  info other : Opt

-- The calls on the device. A file name is a number.
pub data Call : Type 0 where
  open_file : ℕ → Call
  get_support get_bootstatus disable_card enable_card : Call
  set_timeout : ℕ → Call
  get_timeout : Call
  set_pretimeout : ℕ → Call
  get_pretimeout get_timeleft keepalive : Call
  sleep : ℕ → Call
  write_v close_file : Call

abbrev pub default_ping_rate : ℕ
default_ping_rate = 1

abbrev pub uint_mod : ℕ
uint_mod = 4294967296

-- The variables of `main` that the options set, and the calls so far.
pub record Parse : Type 0 where
  pub ping_rate : ℕ
  pub oneshot : Bool
  pub calls : List Call

-- An `ioctl`, and whether the program then ends without ticking.
abbrev pub ioctl : Parse → Call → Bool → Parse
ioctl s call once = record s { calls = s.calls ++ (call ∷ []); oneshot = once }

-- A case of the `switch`, with whether its `ioctl` succeeds.
unfoldable pub handle : Parse → Opt → Bool → Parse
handle s bootstatus ok = ioctl s get_bootstatus true
handle s disable ok = ioctl s disable_card (if ok then s.oneshot else true)
handle s enable ok = ioctl s enable_card (if ok then s.oneshot else true)
handle s (pingrate n) ok =
    let rate = n % uint_mod in
    record s { ping_rate = if rate == 0 then default_ping_rate else rate }
handle s (timeout n) ok = ioctl s (set_timeout (n % uint_mod)) (if ok then s.oneshot else true)
handle s gettimeout ok = ioctl s get_timeout true
handle s (pretimeout n) ok =
    ioctl s (set_pretimeout (n % uint_mod)) (if ok then s.oneshot else true)
handle s getpretimeout ok = ioctl s get_pretimeout true
handle s gettimeleft ok = ioctl s get_timeleft true
handle s (file f) ok = s
handle s info ok = record s { oneshot = true }
handle s other ok = s

abbrev pub is_other : Opt → Bool
is_other other = true
is_other o = false

-- The second loop over the options: what they leave, and whether it ends with the usage message.
unfoldable pub parse : Parse → List (Opt × Bool) → Parse × Bool
parse s [] = (s, false)
parse s ((o, ok) ∷ options) =
    let rest = parse (handle s o ok) options in if is_other o then (s, true) else rest

-- The first loop: the last file that is named.
unfoldable pub named_file : ℕ → List (Opt × Bool) → ℕ
named_file name [] = name
named_file name ((file f, ok) ∷ options) = named_file f options
named_file name ((o, ok) ∷ options) = named_file name options

-- The endless loop, for as many calls as it makes before SIGINT.
unfoldable pub ticking : ℕ → ℕ → List Call
ticking ping_rate zero = []
ticking ping_rate (suc zero) = keepalive ∷ []
ticking ping_rate (suc (suc n)) = keepalive ∷ (sleep ping_rate ∷ ticking ping_rate n)

-- When SIGINT comes: after some calls of the program, before the handler is there, which ends it, or
-- after some calls of the endless loop.
pub data Sigint : Type 0 where
  early in_loop : ℕ → Sigint

-- The label `end`, and the handler `term` of SIGINT.
abbrev pub stop : List Call
stop = write_v ∷ (close_file ∷ [])

-- How a run ends: at the label `end`, by the handler, before the options are looked at, or killed.
pub data Ending : Type 0 where
  ended interrupted killed : Ending
  exited : ℤ → Ending

-- The run that makes some calls and ends, unless SIGINT kills it first.
abbrev pub unless_killed : Sigint → List Call → Ending → List Call × Ending
unless_killed (early n) calls e = (take n calls, killed)
unless_killed (in_loop n) calls e = (calls, e)

-- The loop, behind the calls so far: a SIGINT that is too early comes before it.
abbrev pub then_ticks : Sigint → Parse → List Call × Ending
then_ticks (early n) s = (take n s.calls, killed)
then_ticks (in_loop n) s = (s.calls ++ (ticking s.ping_rate n ++ stop), interrupted)

-- What `main` does once the options are parsed.
unfoldable pub after_options : Parse × Bool → Sigint → List Call × Ending
unfolding ticking
after_options (s, shown_usage) sigint =
    if shown_usage
    then unless_killed sigint (s.calls ++ stop) ended
    else (if s.oneshot then unless_killed sigint (s.calls ++ stop) ended else then_ticks sigint s)

-- `default_file` is "/dev/watchdog"; `opened` is whether the file can be opened, and `supported` whether
-- it answers as a watchdog.
unfoldable pub main : ℕ → List (Opt × Bool) → Bool → Bool → Sigint → List Call × Ending
unfolding parse handle named_file after_options
main default_file options opened supported sigint =
    let opening = open_file (named_file default_file options) ∷ [] in
    if not opened
    then unless_killed sigint opening (exited (negsuc 0))
    else (if not supported
        then unless_killed sigint (opening ++ (get_support ∷ (close_file ∷ []))) (exited (negsuc 0))
        else after_options
            (parse
              (record {
                ping_rate = default_ping_rate;
                oneshot = false;
                calls = opening ++ (get_support ∷ []);
              })
              options)
            sigint)
