-- ===== src/Chat/Datagrams.antt =====
-- SocketUDP/udpclient1.c and SocketUDP/udpserv1.c, which exchange one datagram each.
use linux_kernel_development.Prelude.{
  ℕ, Bool, not, if◌then◌else◌, Option, none, some, List, [], ◌∷◌, length, ltb, take,
}

-- `MAXLINE`
abbrev pub maxline : ℕ
maxline = 1024

-- "Hello from client" and "Hello from server".
abbrev pub client_hello : List ℕ
client_hello =
    72 ∷ 101 ∷ 108 ∷ 108 ∷ 111 ∷ 32 ∷ 102 ∷ 114 ∷ 111 ∷ 109 ∷ 32 ∷ 99 ∷ 108 ∷ 105 ∷ 101 ∷ 110 ∷ 116
    ∷ []

abbrev pub server_hello : List ℕ
server_hello =
    72 ∷ 101 ∷ 108 ∷ 108 ∷ 111 ∷ 32 ∷ 102 ∷ 114 ∷ 111 ∷ 109 ∷ 32 ∷ 115 ∷ 101 ∷ 114 ∷ 118 ∷ 101 ∷ 114
    ∷ []

-- How a program ends: it gives up, writes outside of its buffer, or has sent and received, with the
-- bytes in front of the terminator that it has set.
pub data Ending : Type 0 where
  gave_up outside : Ending
  done : List ℕ → List ℕ → Ending

-- `recvfrom` hands over at most `MAXLINE` bytes of a datagram, or fails with -1; then the byte behind
-- them, `buffer[n]`, is set.
abbrev pub terminated : Option (List ℕ) → Option (List ℕ)
terminated none = none
terminated (some datagram) =
    let bytes = take maxline datagram in if ltb (length bytes) maxline then some bytes else none

abbrev pub after_received : List ℕ → Option (List ℕ) → Ending
after_received sent received = elim (terminated received) [
  | none ↦ outside
  | some bytes ↦ done sent bytes
]

-- The client sends before it receives, and the server after.
unfoldable pub client_main : Bool → Option (List ℕ) → Ending
client_main socket_ok received =
    if not socket_ok then gave_up else after_received client_hello received

unfoldable pub server_main : Bool → Bool → Option (List ℕ) → Ending
server_main socket_ok bind_ok received =
    if not socket_ok
    then gave_up
    else (if not bind_ok then gave_up else after_received server_hello received)
