-- ===== src/Tests/Stream.antt =====
-- The stream of price updates at a small run.
use synora_hackathon.Prelude.{◌≡◌, refl, some, String, List, [], ◌∷◌, if◌then◌else◌}
use synora_hackathon.Js.Value.{Value, str, obj, end, field, member}
use synora_hackathon.Api.Base.{ok}
use synora_hackathon.Api.Stream.{Happening, opened, message, timed_out, close, connect, step, run}
use synora_hackathon.Api.Stream.Laws.{any_stops, updates, run-timed_out}

abbrev of_type : String → Value
of_type name = obj (field "type" (str name) end)

abbrev events : List Happening
events = opened ∷ message (ok (of_type "PRICE_UPDATE")) ∷ message (ok (of_type "PING")) ∷ []

run-timed_out_example :
    (step (run (connect (str "t")) events).0 timed_out).1
    ≡ (if any_stops events then [] else close (some 1008) ∷ [])
run-timed_out_example = run-timed_out (str "t") events

-- No confirmation came, so the socket is closed.
unconfirmed : (step (run (connect (str "t")) events).0 timed_out).1 ≡ close (some 1008) ∷ []
unfolding step run connect member
unconfirmed = refl

one_update : updates (run (connect (str "t")) events).1 ≡ of_type "PRICE_UPDATE" ∷ []
unfolding step run connect member
one_update = refl
