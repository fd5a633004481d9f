-- ===== src/Chat/Mains.antt =====
-- The `main` functions of SocketTCP/tcpclient1.c and SocketTCP/tcpserv1.c: the sockets that they make
-- and close around `func`. A program that gives up leaves what it has open to its end.
use linux_kernel_development.Prelude.{false, Bool, true, not, if◌then◌else◌, [], ◌∷◌}
use linux_kernel_development.Kernel.Ledger.{Events, taken, given, socket, connection}

-- What a program has opened and closed, and whether it has come to `func`.
pub record Ran : Type 0 where
  pub log : Events
  pub chatted : Bool

abbrev gives_up : Events → Ran
gives_up log = record { log = log; chatted = false }

unfoldable pub client_main : Bool → Bool → Ran
client_main socket_ok connect_ok =
    if not socket_ok
    then gives_up []
    else (if not connect_ok
        then gives_up (taken socket ∷ [])
        else record { log = taken socket ∷ given socket ∷ []; chatted = true })

-- The socket that is closed is the one that listens, not the connection's.
unfoldable pub server_main : Bool → Bool → Bool → Bool → Ran
server_main socket_ok bind_ok listen_ok accept_ok =
    if not socket_ok
    then gives_up []
    else (if not bind_ok
        then gives_up (taken socket ∷ [])
        else (if not listen_ok
            then gives_up (taken socket ∷ [])
            else (if not accept_ok then gives_up (taken socket ∷ []) else record {
              log = taken socket ∷ taken connection ∷ given socket ∷ [];
              chatted = true;
            })))
