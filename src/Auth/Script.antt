-- ===== src/Auth/Script.antt =====
-- frontend/src/AuthScreen.jsx, lines 14 to 34: `loadScript`, for one address, with the events of the
-- script element that it adds. `readyState`, which today's browsers do not set on a script, is left
-- out; so is a script of that address that the page holds by itself.
pub mod Laws
use synora_hackathon.Prelude.{ℕ, Bool, true, false, Option, none, some, List, [], ◌∷◌, ◌++◌}

-- How far the element is; `dataset.loaded` is 'true' exactly when it is `loaded`.
pub data Phase : Type 0 where
  loading loaded broken : Phase

-- The document's element, the callers that listen to it, and the promises that are settled, the
-- latest first: `true` for a resolved one.
pub record Document : Type 0 where
  pub script : Option Phase
  pub waiting : List ℕ
  pub settled : List (ℕ × Bool)

abbrev pub blank : Document
blank = record { script = none; waiting = []; settled = [] }

-- A caller's `loadScript(src)`, and the element's two events.
pub data Event : Type 0 where
  call : ℕ → Event
  load failure : Event

-- `loadScript`. An element that has failed gets listeners too.
unfoldable pub load_script : ℕ → Document → Document
load_script caller d = elim d.script [
  | none ↦ record d { script = some loading; waiting = caller ∷ [] }
  | some loaded ↦ record d { settled = (caller, true) ∷ d.settled }
  | some loading ↦ record d { waiting = d.waiting ++ caller ∷ [] }
  | some broken ↦ record d { waiting = d.waiting ++ caller ∷ [] }
]

-- The promises of the listeners, settled in order.
unfoldable pub settle : Bool → List ℕ → List (ℕ × Bool) → List (ℕ × Bool)
settle fine [] done = done
settle fine (caller ∷ callers) done = settle fine callers ((caller, fine) ∷ done)

unfoldable pub finish_script : Phase → Bool → Document → Document
unfolding settle
finish_script phase fine d = record d {
  script = some phase;
  waiting = [];
  settled = settle fine d.waiting d.settled;
}

-- An element is fetched once, and so fires one of its events, once.
unfoldable pub apply : Event → Document → Document
unfolding load_script finish_script
apply (call caller) d = load_script caller d
apply load d = elim d.script [ some loading ↦ finish_script loaded true d | _ ↦ d ]
apply failure d = elim d.script [ some loading ↦ finish_script broken false d | _ ↦ d ]

unfoldable pub run : List Event → Document → Document
run [] d = d
run (e ∷ es) d = run es (apply e d)
