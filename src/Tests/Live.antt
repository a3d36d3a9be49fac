-- ===== src/Tests/Live.antt =====
-- The session's contract, and the terminal with its stream, at small inputs.
use synora_hackathon.Prelude.{ℕ, ◌≡◌, refl, Bool, true, none, List, [], ◌∷◌, ◌++◌, String}
use synora_hackathon.Js.Number.{Num, pos}
use synora_hackathon.Js.Value.{Value, num, str, obj, end, field, truthy, member, num_of}
use synora_hackathon.Api.Base.{ok}
use synora_hackathon.Api.Session.{cleared, get_auth_token, get_session_user}
use synora_hackathon.Api.Session.Contract.{
  Operation, sign_in, sign_out, reload, read_token, promise, promises, token_of, user_of, performs,
  store_of,
}
use synora_hackathon.Api.Session.Contract.Refinement.{performs-keep_promises}
use synora_hackathon.Api.Stream.{opened, message}
use synora_hackathon.Terminal.Machine
use synora_hackathon.Terminal.Screen.{initial}
use synora_hackathon.Terminal.Live.{Event, page, socket, unmount, open_live, apply, run}
use synora_hackathon.Terminal.Live.Refinement.{machine_run, run-open_live}
use synora_hackathon.Terminal.Live.Rejected.{answered, answered-rejects}

abbrev payload : Value
payload = obj (
    field "token" (str "t")
      (field "expires_in" (num (pos 60)) (field "user" (obj (field "id" (str "u1") end)) end)))

abbrev operations : List Operation
operations = sign_in 1000 payload ∷ read_token 1500 ∷ reload 2000 ∷ []

performs-keep_promises_example :
    let s = performs operations cleared in
    (s ≡ store_of (promises operations none))
    × ((get_auth_token 2500 s).1 ≡ token_of (promises operations none))
    × (get_session_user s ≡ user_of (promises operations none))
performs-keep_promises_example = performs-keep_promises operations 2500

-- The session is kept, and ends with its minute.
promised :
    (token_of (promises operations none) ≡ str "t")
    × (token_of (promises (operations ++ reload 61000 ∷ []) none) ≡ str "")
    × (token_of (promises (operations ++ sign_out ∷ []) none) ≡ str "")
unfolding promises promise token_of member num_of
promised = (refl, refl, refl)

abbrev no_time : Value → Num
no_time v = pos 0

abbrev update : Value
update = obj (
    field "type" (str "PRICE_UPDATE")
      (field "auction_id" (str "108") (field "current_high_price" (str "180.00") end)))

abbrev events : List (ℕ × Event)
events =
    (1, socket opened)
    ∷ (2, socket (message (ok update)))
    ∷ (3, page Machine.pause_clicked)
    ∷ (4, unmount)
    ∷ []

run-open_live_example :
    (run no_time "108" events (open_live (str "t"))).screen
    ≡ Machine.run no_time "108" (machine_run (truthy (str "t")) events) initial
run-open_live_example = run-open_live no_time "108" (str "t") events

abbrev accepts_all : String → Bool
accepts_all token = true

answered-rejects_example :
    let l = apply no_time "108" 1 (socket opened) (open_live (str "t")) in
    (run no_time "108" (answered accepts_all "context canceled" 2 l.frames) l).screen
    ≡ record initial { load_error = "context canceled" }
answered-rejects_example =
    answered-rejects no_time "108" accepts_all "context canceled" 1 2 (str "t") refl refl
