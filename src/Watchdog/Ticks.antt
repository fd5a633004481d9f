-- ===== src/Watchdog/Ticks.antt =====
-- When the program of Watchdog/watchdog.c ticks.
use linux_kernel_development.Prelude.{
  ℕ, ◌≡◌, Bool, true, false, not, ◌&&◌, List, [], ◌∷◌, arith, Bool-cases, inl, inr, if◌then◌else◌,
  ◌∙◌, ap,
}
use linux_kernel_development.Watchdog.{
  Opt, disable, enable, pingrate, timeout, pretimeout, file, is_other, Parse, handle, parse, ended,
  in_loop, interrupted, after_options, main,
}

-- The options after which the program goes on to tick: those that set something, if the device
-- accepts it, and those that are for the program itself.
abbrev pub goes_on : Opt → Bool → Bool
goes_on disable ok = ok
goes_on enable ok = ok
goes_on (timeout n) ok = ok
goes_on (pretimeout n) ok = ok
goes_on (pingrate n) ok = true
goes_on (file f) ok = true
goes_on o ok = false

abbrev pub all_go_on : List (Opt × Bool) → Bool
all_go_on [] = true
all_go_on ((o, ok) ∷ options) = goes_on o ok && all_go_on options

-- Whether a parse lets the program tick.
abbrev may_tick : Parse × Bool → Bool
may_tick (s, shown_usage) = not shown_usage && not s.oneshot

handle_oneshot :
    (s : Parse) (o : Opt) (ok : Bool)
    → is_other o ≡ false
    → not (handle s o ok).oneshot ≡ (not s.oneshot && goes_on o ok)
unfolding handle
handle_oneshot s disable ok h = ground arith
handle_oneshot s _ ok h = ground arith

other_stops : (o : Opt) (ok : Bool) → is_other o ≡ true → goes_on o ok ≡ false
other_stops disable ok h = ground arith
other_stops _ ok h = ground arith

may_tick-parse :
    (s : Parse) (options : List (Opt × Bool))
    → may_tick (parse s options) ≡ (not s.oneshot && all_go_on options)
unfolding parse
may_tick-parse s [] = ground arith
may_tick-parse s ((o, ok) ∷ options) = elim (Bool-cases (is_other o)) [
  | inl usage ↦ rw usage (ground (arith, other_stops o ok usage))
  | inr known ↦ rw known (
      may_tick-parse (handle s o ok) options
      ∙ ap (λ b. b && all_go_on options) (handle_oneshot s o ok known)
      ∙ ground arith)
]

after_options_ending :
    (r : Parse × Bool) (rounds : ℕ)
    → (after_options r (in_loop rounds)).1 ≡ (if may_tick r then interrupted else ended)
unfolding after_options
after_options_ending (s, shown_usage) rounds = ground arith

-- With a watchdog device that can be opened, and a SIGINT that is not early, the program ticks exactly when
-- every option sets something that the device accepts, or sets the rate or the file; else it ends
-- by itself.
main_ticks :
    (default_file : ℕ) (options : List (Opt × Bool)) (rounds : ℕ)
    → (main default_file options true true (in_loop rounds)).1
      ≡ (if all_go_on options then interrupted else ended)
unfolding main
main_ticks default_file options rounds =
    after_options_ending (parse _ options) rounds
    ∙ ap (λ b. if b then interrupted else ended) (may_tick-parse _ options)
