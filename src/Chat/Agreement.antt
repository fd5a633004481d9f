-- ===== src/Chat/Agreement.antt =====
-- What the two programs have read of what the other has written.
use linux_kernel_development.Prelude.{some, ℕ, ◌≡◌, List, [], ◌∷◌, ◌++◌}
use linux_kernel_development.Chat.{type_line}
use linux_kernel_development.Chat.Session.{Chatting}

-- The bytes of the chunks, one after the other.
unfoldable pub joined : List (List ℕ) → List ℕ
joined [] = []
joined (c ∷ cs) = c ++ joined cs

-- What has been read and what waits are what has been written.
abbrev Delivered : List (List ℕ) → List ℕ → List (List ℕ) → Type 0
Delivered read waiting typed = joined read ++ waiting ≡ joined typed

-- The buffers are the lines of the input, one after the other, up to what is left of it.
abbrev pub TypedFrom : List ℕ → List (List ℕ) → List ℕ → Type 0
TypedFrom input [] left = input ≡ left
TypedFrom input (buff ∷ buffs) left =
    (rest : List ℕ) × (type_line input ≡ some (buff, rest)) × TypedFrom rest buffs left

pub record Agree (client_input server_input : List ℕ) (s : Chatting) : Type 0 where
  pub to_server_kept : joined s.server_read ++ s.to_server ≡ joined s.client_typed
  pub to_client_kept : joined s.client_read ++ s.to_client ≡ joined s.server_typed
  pub client_lines : TypedFrom client_input s.client_typed s.client_input
  pub server_lines : TypedFrom server_input s.server_typed s.server_input
