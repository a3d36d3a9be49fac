-- ===== src/Tests/Relay.antt =====
-- A connection of the hub, at small runs.
use synora_hackathon.Prelude.{
  ◌≡◌, ◌≤◌, refl, Bool, true, false, List, [], ◌∷◌, ◌++◌, String, arith, length,
}
use mathlib.Core.List.{Sublist}
use synora_hackathon.Js.Value.{Value, str, obj, end, field}
use synora_hackathon.Server.Hub.{authenticate, answer}
use synora_hackathon.Server.Relay.{
  Conn, serve, Event, published, written, pinged, read_failed, subscription_failed, run,
}
use synora_hackathon.Server.Relay.Order.{run-relays, run-loses_nothing, GoesWell}

abbrev any_token : String → Bool
any_token s = true

abbrev hello : Value
hello = obj (field "type" (str "AUTH") (field "token" (str "t") end))

abbrev connected : Conn
connected = serve any_token "context canceled" hello

accepted : authenticate any_token hello ≡ true
unfolding authenticate
accepted = refl

-- The writer stops at a write that fails, and the connection stays, but its socket gets nothing more.
abbrev broken_pipe : List Event
broken_pipe = published (str "a") ∷ written false ∷ published (str "b") ∷ written true ∷ []

falls_silent :
    ((run broken_pipe connected).is_registered ≡ true)
    × ((run broken_pipe connected).sent ≡ answer any_token "context canceled" hello ∷ [])
unfolding run serve
falls_silent = (refl, refl)

run-relays_example :
    let c = run broken_pipe connected in
    (taken : List Value) × (c.sent ≡ answer any_token "context canceled" hello ∷ taken)
    × Sublist (taken ++ c.waiting) (str "a" ∷ str "b" ∷ [])
    × (length c.waiting ≤ 32)
run-relays_example = run-relays any_token "context canceled" hello broken_pipe accepted

abbrev quiet_evening : List Event
quiet_evening = published (str "a") ∷ pinged true ∷ published (str "b") ∷ written true ∷ []

quiet_evening-GoesWell : GoesWell quiet_evening connected
unfolding serve run
quiet_evening-GoesWell = (omega arith, (refl, (omega arith, (refl, tt))))

run-loses_nothing_example :
    (run quiet_evening connected).sent ++ (run quiet_evening connected).waiting
    ≡ answer any_token "context canceled" hello ∷ str "a" ∷ str "b" ∷ []
run-loses_nothing_example =
    run-loses_nothing any_token "context canceled" hello quiet_evening accepted
      quiet_evening-GoesWell

-- A failing read ends the connection.
hung_up : (run (read_failed ∷ published (str "a") ∷ []) connected).waiting ≡ []
unfolding run serve
hung_up = refl

-- Without its subscription it gets no messages.
deaf : (run (subscription_failed ∷ published (str "a") ∷ written true ∷ []) connected).waiting ≡ []
unfolding run serve
deaf = refl
