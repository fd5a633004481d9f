-- ===== src/Chat/Tests.antt =====
-- The theorems on the two programs of SocketTCP, at a chat of one round.
use linux_kernel_development.Prelude.{
  true, ℕ, ◌≡◌, refl, none, some, List, [], ◌∷◌, ◌++◌, replicate, arith,
}
use linux_kernel_development.Chat.{newline, type_line, received, is_exit}
use linux_kernel_development.Kernel.Ledger.{connection, outstanding}
use linux_kernel_development.Chat.Mains
use linux_kernel_development.Chat.Datagrams
use linux_kernel_development.Chat.Datagrams.{client_hello, server_hello, done, outside}
use linux_kernel_development.Chat.Lines.{type_line_lem}
use linux_kernel_development.Chat.Session.{
  ended, has_end, Chatting, connected, client_writes, client_reads, server_reads, server_writes,
}

-- "hi" and "exit".
abbrev hi : List ℕ
hi = 104 ∷ 105 ∷ []

abbrev exit : List ℕ
exit = 101 ∷ 120 ∷ 105 ∷ 116 ∷ []

abbrev hi_buff : List ℕ
hi_buff = hi ++ (newline ∷ replicate 77 0)

abbrev exit_buff : List ℕ
exit_buff = exit ++ (newline ∷ replicate 75 0)

type_line_lem_example : type_line (hi ++ (newline ∷ exit)) ≡ some (hi_buff, exit)
type_line_lem_example = type_line_lem hi exit (omega arith)

too_long : type_line (replicate 80 104 ++ (newline ∷ [])) ≡ none
unfolding type_line
too_long = refl

never_ended : type_line hi ≡ none
unfolding type_line
never_ended = refl

abbrev asked : Chatting
asked = client_writes (connected (hi ++ (newline ∷ [])) (exit ++ (newline ∷ []))) hi_buff []

-- The server's read gets one byte of the line, and its answer comes first.
abbrev heard : Chatting
heard = server_reads asked 1

abbrev answered : Chatting
answered = server_writes heard exit_buff []

-- The client reads the last line, and ends.
last_line : (client_reads answered 80).client ≡ ended
unfolding is_exit received has_end
last_line = refl

-- The server never closes its connection.
open_connection : outstanding connection 0 (Mains.server_main true true true true).log ≡ some 1
unfolding Mains.server_main outstanding
open_connection = refl

-- The two programs of SocketUDP receive what the other sends.
hellos_exchanged :
    (Datagrams.client_main true (some server_hello) ≡ done client_hello server_hello)
    × (Datagrams.server_main true true (some client_hello) ≡ done server_hello client_hello)
unfolding Datagrams.client_main Datagrams.server_main
hellos_exchanged = (refl, refl)

-- A datagram of 1024 bytes, and a failed `recvfrom`, write outside of the buffer.
full_datagram :
    (Datagrams.server_main true true (some (replicate 1024 65)) ≡ outside)
    × (Datagrams.client_main true none ≡ outside)
unfolding Datagrams.client_main Datagrams.server_main
full_datagram = (refl, refl)
