-- ===== src/Terminal/Live/Rejected.antt =====
-- The terminal of a visitor with a token, when the server answers its stream.
use synora_hackathon.Prelude.{ℕ, ◌≡◌, refl, ap, ◌∙◌, Bool, true, false, List, [], ◌∷◌, String}
use synora_hackathon.Js.Number.{Num}
use synora_hackathon.Js.Text.{is_empty}
use synora_hackathon.Js.Value.{Value, str, truthy, member, or_else, text_of}
use synora_hackathon.Api.Base.{ok}
use synora_hackathon.Api.Stream.{opened, message, closed, connect, auth_frame, step}
use synora_hackathon.Server.Hub.{answer}
use synora_hackathon.Server.Contract.{authenticate-auth_frame}
use synora_hackathon.Terminal.Machine
use synora_hackathon.Terminal.Screen.{initial, on_stream_error}
use synora_hackathon.Terminal.Live.Refinement.{machine_run, run-open_live}
use synora_hackathon.Terminal.Live.{Live, Event, socket, open_live, perform, happen, apply, run}

-- The server's answers to the frames, as messages of the socket, and the end of the connection.
abbrev pub answered : (String → Bool) → String → ℕ → List Value → List (ℕ × Event)
answered accepts reason now [] = (now, socket closed) ∷ []
answered accepts reason now (frame ∷ frames) =
    (now, socket (message (ok (answer accepts reason frame)))) ∷ answered accepts reason now frames

reason_text :
    (reason other : String)
    → is_empty reason ≡ false
    → text_of (or_else (str reason) (str other)) ≡ reason
unfolding text_of
reason_text String.[] other e = cc
reason_text (String.◌∷◌ c s) other e = refl

module _ (get_time : Value → Num) (auction_id : String) where
  -- When the socket opens, the one frame is sent.
  opened_live :
      (now : ℕ) (token : Value)
      → truthy token ≡ true
      → apply get_time auction_id now (socket opened) (open_live token)
        ≡ record (open_live token) { frames = auth_frame token ∷ [] }
  unfolding apply happen perform step open_live connect
  opened_live now token h = rw h refl

  rejected_screen :
      (accepts : String → Bool) (reason : String) (later : ℕ) (token : Value)
      → is_empty reason ≡ false
      → Machine.run get_time auction_id
          (machine_run true (answered accepts reason later (auth_frame token ∷ [])))
          initial
        ≡ record initial { load_error = reason }
  unfolding Machine.run Machine.apply on_stream_error answer member
  rejected_screen accepts reason later token e = rw (authenticate-auth_frame accepts token) (
      ap (λ t. record initial { load_error = t })
        (reason_text reason "WebSocket authentication failed" e))

  -- Whatever token the visitor has and whichever tokens the server accepts, the server's answer to
  -- the opened stream puts the server's reason on the screen, and changes nothing else of it.
  pub answered-rejects :
      (accepts : String → Bool) (reason : String) (now later : ℕ) (token : Value)
      → truthy token ≡ true
      → is_empty reason ≡ false
      → let l = apply get_time auction_id now (socket opened) (open_live token) in
        (run get_time auction_id (answered accepts reason later l.frames) l).screen
        ≡ record initial { load_error = reason }
  unfolding run Machine.run
  answered-rejects accepts reason now later token h e =
      let l = apply get_time auction_id now (socket opened) (open_live token) in
      run-open_live get_time auction_id token
        ((now, socket opened) ∷ answered accepts reason later l.frames)
      ∙ ap
          (λ b.
            Machine.run get_time auction_id
              (machine_run b ((now, socket opened) ∷ answered accepts reason later l.frames))
              initial)
          h
      ∙ ap
          (λ (k : Live).
            Machine.run get_time auction_id
              (machine_run true (answered accepts reason later k.frames)) initial)
          (opened_live now token h)
      ∙ rejected_screen accepts reason later token e
