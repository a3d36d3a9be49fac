-- ===== src/Server/Redis.antt =====
-- The keys of one auction in Redis, as backend/internal/handlers/handlers.go and
-- backend/internal/settlement/worker.go use them. Redis is a service: a key is a text and the time at
-- which it expires, if any, as its commands SET, SETNX, GET and DEL document.
use synora_hackathon.Prelude.{ℕ, Option, none, some, List, [], String, leb, if◌then◌else◌}

pub record Entry : Type 0 where
  pub text : String
  pub ends : Option ℕ

-- What is published to "auction:<id>:updates", with what its receivers read of it.
pub data Update : Type 0 where
  price_update : (amount : String) → Update
  settlement : (status price : String) (winner : Option String) → Update

-- "auction:<id>:price", "auction:<id>:leader" and "auction:<id>:status", and what was
-- published to "auction:<id>:updates", in order.
pub record Keys : Type 0 where
  pub price : Option Entry
  pub leader : Option Entry
  pub status : Option Entry
  pub updates : List Update

abbrev pub no_keys : Keys
no_keys = record { price = none; leader = none; status = none; updates = [] }

-- GET at `now`.
abbrev pub get : ℕ → Option Entry → Option String
get now none = none
get now (some e) = elim e.ends [
  | none ↦ some e.text
  | some t ↦ if leb t now then none else some e.text
]

-- SETNX without an expiry.
abbrev pub set_nx : ℕ → String → Option Entry → Option Entry
set_nx now text entry = elim (get now entry) [
  | none ↦ some (record { text = text; ends = none })
  | some old ↦ entry
]

-- `time.Until(end)` as an expiry: none where the time has come.
abbrev pub until : ℕ → ℕ → Option ℕ
until now end = if leb end now then none else some end
