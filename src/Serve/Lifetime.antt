-- ===== src/Serve/Lifetime.antt =====
-- internal/pkg/cli/serve.go, `runServe` from the start of its goroutines on. The four servers send
-- the errors that they end with on one channel; `runServe` itself waits for its context alone.
pub mod Shutdown
use mesh_checker.Base.{
  ℕ, ◌<◌, ◌≡◌, Bool, true, false, Option, none, some, List, [], ◌∷◌, ◌++◌, Text, length,
}

pub data Server : Type 0 where
  inter_host_server ui_server probe_server echo_server : Server

-- The error that a server's goroutine sends when it ends: `Run` of the echo server has none.
unfoldable pub sent_error : Server → Option Text → Option Text
sent_error echo_server e = none
sent_error inter_host_server e = e
sent_error ui_server e = e
sent_error probe_server e = e

abbrev pub error_slots : ℕ
error_slots = 4

-- The goroutines that still serve, what is in `errCh`, and whether the context has ended and
-- `runServe` has returned, which it does with nil.
pub record State : Type 0 where
  pub serving : List Server
  pub errors : List (Option Text)
  pub cancelled : Bool
  pub returned : Bool

abbrev pub started : State
started = record {
  serving = inter_host_server ∷ ui_server ∷ probe_server ∷ echo_server ∷ [];
  errors = [];
  cancelled = false;
  returned = false;
}

-- A server may end at any time, by an error of its own or by the shutdown. Nothing takes from the
-- channel, so a send needs a free slot.
pub data Step : State → State → Type 0 where
  ends :
      (x : State) (front back : List Server) (s : Server) (e : Option Text)
      → x.serving ≡ front ++ (s ∷ back)
      → length x.errors < error_slots
      → Step x (record x { serving = front ++ back; errors = x.errors ++ (sent_error s e ∷ []) })
  cancels : (x : State) → Step x (record x { cancelled = true })
  returns :
      (x : State) → x.cancelled ≡ true → x.returned ≡ false → Step x (record x { returned = true })

pub data Reaches : State → Type 0 where
  begin : Reaches started
  after : (x y : State) → Reaches x → Step x y → Reaches y
