-- ===== src/Server/Relay.antt =====
-- backend/internal/websocket/hub.go, lines 37 to 58 and 86 to 143: a connection of the hub, from the answer to
-- its first frame on. Its reader, its writer and its subscription are goroutines, so that their steps
-- come in any order; a deadline of the reader that passes is a failing read. The answer to the first
-- frame goes through.
pub mod Order
use synora_hackathon.Prelude.{
  ℕ, Bool, true, false, not, ◌&&◌, List, [], ◌∷◌, ◌++◌, String, ltb, length, if◌then◌else◌,
}
use synora_hackathon.Js.Value.{Value}
use synora_hackathon.Server.Hub.{authenticate, answer}

-- `waiting` is the channel `send`, `sent` what the socket has got; whether the connection is registered, and
-- whether its writer and its subscription go on.
pub record Conn : Type 0 where
  pub waiting : List Value
  pub sent : List Value
  pub is_registered : Bool
  pub writes : Bool
  pub listens : Bool

-- `ServeHTTP`, up to the start of the goroutines.
unfoldable pub serve : (accepts : String → Bool) (reason : String) → (frame : Value) → Conn
unfolding answer
serve accepts reason frame = record {
  waiting = [];
  sent = answer accepts reason frame ∷ [];
  is_registered = authenticate accepts frame;
  writes = authenticate accepts frame;
  listens = authenticate accepts frame;
}

-- A message from Redis; a turn of the writer, on a message or for a ping, and whether the socket takes it; a failing
-- read; and an error of the subscription.
pub data Event : Type 0 where
  published : Value → Event
  written pinged : (goes : Bool) → Event
  read_failed subscription_failed : Event

-- The channel holds 32 messages, and a message that finds it full is dropped.
abbrev pub capacity : ℕ
capacity = 32

abbrev pub has_room : Conn → Bool
has_room c = ltb (length c.waiting) capacity

abbrev take_message : Value → Conn → Conn
take_message v c = if c.listens && has_room c then record c { waiting = c.waiting ++ v ∷ [] } else c

abbrev write_first : Bool → List Value → Conn → Conn
write_first goes [] c = c
write_first true (v ∷ rest) c = record c { waiting = rest; sent = c.sent ++ v ∷ [] }
write_first false (v ∷ rest) c = record c { waiting = rest; writes = false }

unfoldable pub apply : Event → Conn → Conn
apply (published v) c = take_message v c
apply (written goes) c = if c.writes then write_first goes c.waiting c else c
apply (pinged goes) c = if goes then c else record c { writes = false }
apply read_failed c = record c { is_registered = false; writes = false; listens = false }
apply subscription_failed c = record c { listens = false }

unfoldable pub run : List Event → Conn → Conn
unfolding apply
run [] c = c
run (e ∷ es) c = run es (apply e c)

-- The messages that Redis has for the connection.
abbrev pub messages : List Event → List Value
messages [] = []
messages (published v ∷ es) = v ∷ messages es
messages (written goes ∷ es) = messages es
messages (pinged goes ∷ es) = messages es
messages (read_failed ∷ es) = messages es
messages (subscription_failed ∷ es) = messages es
