-- ===== src/Chat/Session.antt =====
-- A client and a server of SocketTCP on one connection, whose reads and writes come in any order. What
-- one of them writes waits in a stream until the other reads it, in one read or in several.
use linux_kernel_development.Prelude.{
  ℕ, ◌≡◌, ◌≢◌, ◌≤◌, ◌==◌, ◌||◌, Bool, false, if◌then◌else◌, none, some, List, [], ◌∷◌, ◌++◌, length,
  take, drop, not,
}
use linux_kernel_development.Chat.{type_line, received, is_exit, max_len}

-- Where a program stands: before `getchar`, before `read`, behind the loop, and outside of its buffer, which
-- C leaves undefined: it has typed over the end, or prints a buffer with no zero in it.
pub data Place : Type 0 where
  typing reading ended outside : Place

-- The two programs, their standard inputs, the streams, the buffers that each has written, and the bytes
-- that each of its reads has handed over, the oldest first.
pub record Chatting : Type 0 where
  pub client : Place
  pub server : Place
  pub client_input : List ℕ
  pub server_input : List ℕ
  pub to_server : List ℕ
  pub to_client : List ℕ
  pub client_typed : List (List ℕ)
  pub server_typed : List (List ℕ)
  pub client_read : List (List ℕ)
  pub server_read : List (List ℕ)

-- The programs after they have connected.
abbrev pub connected : List ℕ → List ℕ → Chatting
connected client_input server_input = record {
  client = typing;
  server = reading;
  client_input = client_input;
  server_input = server_input;
  to_server = [];
  to_client = [];
  client_typed = [];
  server_typed = [];
  client_read = [];
  server_read = [];
}

-- Whether `printf` finds the end of the text in the buffer.
unfoldable pub has_end : List ℕ → Bool
has_end [] = false
has_end (b ∷ bs) = let rest = has_end bs in (b == 0) || rest

-- The loop of the client: a line is typed and written.
abbrev pub client_writes : Chatting → List ℕ → List ℕ → Chatting
client_writes s buff rest = record s {
  client = reading;
  client_input = rest;
  to_server = s.to_server ++ buff;
  client_typed = s.client_typed ++ (buff ∷ []);
}

-- A read of `k` bytes, the print, and the test for the end.
abbrev pub client_reads : Chatting → ℕ → Chatting
client_reads s k =
    let buff = received (take k s.to_client) in
    record s {
      client = if not (has_end buff) then outside else (if is_exit buff then ended else typing);
      to_client = drop k s.to_client;
      client_read = s.client_read ++ (take k s.to_client ∷ []);
    }

-- The loop of the server: a read of `k` bytes and the print.
abbrev pub server_reads : Chatting → ℕ → Chatting
server_reads s k = record s {
  server = if not (has_end (received (take k s.to_server))) then outside else typing;
  to_server = drop k s.to_server;
  server_read = s.server_read ++ (take k s.to_server ∷ []);
}

-- A line is typed and written, and tested for the end.
abbrev pub server_writes : Chatting → List ℕ → List ℕ → Chatting
server_writes s buff rest = record s {
  server = if is_exit buff then ended else reading;
  server_input = rest;
  to_client = s.to_client ++ buff;
  server_typed = s.server_typed ++ (buff ∷ []);
}

-- What a read can hand over of what waits: some of it, and no more than the buffer holds.
abbrev pub Arrives : ℕ → List ℕ → Type 0
Arrives k waiting = (k ≢ 0) × (k ≤ length waiting) × (k ≤ max_len)

-- A read waits for a byte, or for the end of the other program, which leaves its buffer zeroed.
pub data ChatStep (s : Chatting) : Chatting → Type 0 where
  client_sends :
      {buff rest : List ℕ}
      → s.client ≡ typing
      → type_line s.client_input ≡ some (buff, rest)
      → ChatStep s (client_writes s buff rest)
  client_overruns :
      s.client ≡ typing
      → type_line s.client_input ≡ none
      → ChatStep s (record s { client = outside })
  client_gets : {k : ℕ} → s.client ≡ reading → Arrives k s.to_client → ChatStep s (client_reads s k)
  client_gets_end :
      s.client ≡ reading → s.to_client ≡ [] → s.server ≡ ended → ChatStep s (client_reads s 0)
  server_gets : {k : ℕ} → s.server ≡ reading → Arrives k s.to_server → ChatStep s (server_reads s k)
  server_gets_end :
      s.server ≡ reading → s.to_server ≡ [] → s.client ≡ ended → ChatStep s (server_reads s 0)
  server_sends :
      {buff rest : List ℕ}
      → s.server ≡ typing
      → type_line s.server_input ≡ some (buff, rest)
      → ChatStep s (server_writes s buff rest)
  server_overruns :
      s.server ≡ typing
      → type_line s.server_input ≡ none
      → ChatStep s (record s { server = outside })

pub data ChatReach (client_input server_input : List ℕ) : Chatting → Type 0 where
  start : ChatReach client_input server_input (connected client_input server_input)
  later :
      {s t : Chatting}
      → ChatReach client_input server_input s
      → ChatStep s t
      → ChatReach client_input server_input t
