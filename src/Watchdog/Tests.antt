-- ===== src/Watchdog/Tests.antt =====
-- The theorems on Watchdog/watchdog.c at concrete inputs, and runs of its definitions.
use linux_kernel_development.Prelude.{◌≡◌, refl, Bool, true, false, List, [], ◌∷◌, negsuc}
use linux_kernel_development.Watchdog.{
  in_loop, Opt, disable, pingrate, timeout, gettimeout, file, open_file, get_support, disable_card,
  set_timeout, get_timeout, keepalive, sleep, write_v, close_file, ticking, ended, exited, main,
}

-- `-t 10 -p 0 -f 7`, accepted.
abbrev settings : List (Opt × Bool)
settings = (timeout 10, true) ∷ (pingrate 0, true) ∷ (file 7, true) ∷ []

one_round :
    (main 0 settings true true (in_loop 2)).0
    ≡ open_file 7 ∷ get_support ∷ set_timeout 10 ∷ keepalive ∷ sleep 1 ∷ write_v ∷ close_file ∷ []
unfolding main ticking
one_round = refl

-- `-d -T`, the first refused.
asked_once :
    main 0 ((disable, false) ∷ (gettimeout, true) ∷ []) true true (in_loop 5)
    ≡ (open_file 0 ∷ get_support ∷ disable_card ∷ get_timeout ∷ write_v ∷ close_file ∷ [], ended)
unfolding main
asked_once = refl

not_a_watchdog :
    main 0 settings true false (in_loop 5)
    ≡ (open_file 7 ∷ get_support ∷ close_file ∷ [], exited (negsuc 0))
unfolding main
not_a_watchdog = refl
