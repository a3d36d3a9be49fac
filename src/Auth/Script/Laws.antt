-- ===== src/Auth/Script/Laws.antt =====
-- Which calls of `loadScript` are answered.
use synora_hackathon.Prelude.{
  ℕ, suc, ◌+◌, ◌≡◌, refl, Bool, true, false, none, some, List, [], ◌∷◌, arith, length,
  length-append,
}
use synora_hackathon.Auth.Script.{
  loaded, broken, Document, Event, call, load, failure, load_script, settle, finish_script, blank,
  apply, run,
}

-- The calls among the events.
abbrev pub calls : List Event → ℕ
calls [] = 0
calls (call n ∷ es) = suc (calls es)
calls (_ ∷ es) = calls es

length-settle :
    (fine : Bool) (callers : List ℕ) (done : List (ℕ × Bool))
    → length (settle fine callers done) ≡ length callers + length done
unfolding settle
length-settle fine [] done = omega arith
length-settle fine (c ∷ callers) done = omega (arith, length-settle fine callers ((c, fine) ∷ done))

-- How many calls the document knows of, answered or not.
abbrev known : Document → ℕ
known d = length d.waiting + length d.settled

-- While there is no element nobody waits, and nobody waits for one that is loaded.
pub record IsSound (d : Document) : Type 0 where
  pub none_waits : d.script ≡ none → d.waiting ≡ []
  pub loaded_waits : d.script ≡ some loaded → d.waiting ≡ []

apply-known : (e : Event) (d : Document) → IsSound d → known (apply e d) ≡ calls (e ∷ []) + known d
unfolding apply load_script finish_script
apply-known (call c) d h = ground (arith, length-append d.waiting (c ∷ []))
apply-known load d h = ground (arith, length-settle true d.waiting d.settled)
apply-known failure d h = ground (arith, length-settle false d.waiting d.settled)

apply-IsSound : (e : Event) (d : Document) → IsSound d → IsSound (apply e d)
unfolding apply load_script finish_script
apply-IsSound (call c) d h = ground arith
apply-IsSound load d h = ground arith
apply-IsSound failure d h = ground arith

run-IsSound :
    (es : List Event) (d : Document)
    → IsSound d
    → IsSound (run es d) × (known (run es d) ≡ calls es + known d)
unfolding run
run-IsSound [] d h = (h, omega arith)
run-IsSound (e ∷ es) d h =
    let (sound, count) = run-IsSound es (apply e d) (apply-IsSound e d h) in
    (sound, ground (arith, count, apply-known e d h))

blank-IsSound : IsSound blank
blank-IsSound = record { none_waits = λ h. refl; loaded_waits = λ h. refl }

-- Once the script has loaded, each call so far is settled, once, and none waits.
pub run-answers :
    (es : List Event)
    → (run es blank).script ≡ some loaded
    → ((run es blank).waiting ≡ []) × (length (run es blank).settled ≡ calls es)
run-answers es h =
    let (sound, count) = run-IsSound es blank blank-IsSound in
    (sound.loaded_waits h, ground (arith, count, sound.loaded_waits h))

-- Once the script has failed to load, no later call is ever answered: each one waits for events that
-- the element has had already.
pub run_broken :
    (es : List Event) (d : Document)
    → d.script ≡ some broken
    → ((run es d).script ≡ some broken)
      × ((run es d).settled ≡ d.settled)
      × (length (run es d).waiting ≡ length d.waiting + calls es)
unfolding run apply load_script
run_broken [] d h = ground arith
run_broken (call c ∷ es) d h =
    ground (arith, length-append d.waiting (c ∷ []), run_broken es (load_script c d))
run_broken (load ∷ es) d h = ground (arith, run_broken es d h)
run_broken (failure ∷ es) d h = ground (arith, run_broken es d h)
