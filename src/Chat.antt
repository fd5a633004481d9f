-- ===== src/Chat.antt =====
-- SocketTCP/tcpclient1.c and SocketTCP/tcpserv1.c: a client and a server that send one another a line
-- each in turn, until the server's line starts with "exit". Here are the parts of their loops;
-- Session puts the two together.
use linux_kernel_development.Prelude.{
  ℕ, ◌+◌, ◌==◌, ltb, Bool, ◌&&◌, if◌then◌else◌, Option, none, some, List, [], ◌∷◌, ◌++◌, replicate,
  get_or, set, length, take, drop, ◌-◌,
}
pub mod Lines
pub mod Mains
pub mod Datagrams
pub mod Session
pub mod Agreement
mod Tests

-- `MAX`
abbrev pub max_len : ℕ
max_len = 80

-- `'\n'`
abbrev pub newline : ℕ
newline = 10

-- `bzero(buff, MAX)`
abbrev pub zeroed : List ℕ
zeroed = replicate max_len 0

-- `while ((buff[n++] = getchar()) != '\n')`: the buffer and the rest of the input, or `none` if the
-- loop writes behind the end of the buffer. At the end of the input `getchar` answers EOF for ever,
-- which is no newline.
unfoldable pub type_from : ℕ → List ℕ → List ℕ → Option (List ℕ × List ℕ)
type_from n buff [] = none
type_from n buff (c ∷ input) =
    let next = type_from (n + 1) (set buff n c) input in
    if ltb n max_len then (if c == newline then some (set buff n c, input) else next) else none

-- A line that is typed into a zeroed buffer.
unfoldable pub type_line : List ℕ → Option (List ℕ × List ℕ)
unfolding type_from
type_line input = type_from 0 zeroed input

-- A zeroed buffer after a `read` that has handed over `bytes`.
unfoldable pub received : List ℕ → List ℕ
received bytes = bytes ++ drop (length bytes) zeroed

-- `strncmp("exit", buff, 4) == 0`
unfoldable pub is_exit : List ℕ → Bool
is_exit buff =
    (get_or buff 0 0 == 101)
    && ((get_or buff 1 0 == 120) && ((get_or buff 2 0 == 105) && (get_or buff 3 0 == 116)))
