-- ===== src/Server/Relay/Order.antt =====
-- What reaches the socket of a connection.
use synora_hackathon.Prelude.{
  ◌≤◌, ◌<◌, ◌≡◌, inl, inr, refl, ap, sym, ◌∙◌, Bool, true, false, ◌&&◌, List, [], ◌∷◌, ◌++◌,
  append-nil, append_assoc, String, arith, length, length-append, Bool-cases, if◌then◌else◌,
  ltb-true,
}
use mathlib.Core.List.Sublist
use mathlib.Core.List.{Sublist, sublist-append_left, sublist-cons_self}
use synora_hackathon.Js.Value.{Value}
use synora_hackathon.Server.Hub.{authenticate, answer}
use synora_hackathon.Server.Relay.{
  Conn, serve, Event, published, written, pinged, read_failed, subscription_failed, has_room,
  write_first, take_message, apply, run, messages,
}

-- The socket has got `first` and then `taken`; this and what waits is some of `ys`, in its order, and at
-- most 32 messages wait.
record Relays (first : Value) (c : Conn) (ys : List Value) : Type 0 where
  taken : List Value
  begins : c.sent ≡ first ∷ taken
  in_order : Sublist (taken ++ c.waiting) ys
  bounded : length c.waiting ≤ 32

Relays-message :
    (first v : Value) (c : Conn) (ys : List Value)
    → Relays first c ys
    → Relays first (take_message v c) (ys ++ v ∷ [])
Relays-message first v c ys r = elim (Bool-cases (c.listens && has_room c)) [
  | inr out ↦ rw out (record {
    taken = r.taken;
    begins = r.begins;
    in_order = Sublist.trans r.in_order (sublist-append_left ys (v ∷ []));
    bounded = r.bounded;
  })
  | inl room ↦ rw room (record {
    taken = r.taken;
    begins = r.begins;
    in_order =
        rw (append_assoc r.taken c.waiting (v ∷ [])) at
          (Sublist.append r.in_order (Sublist.refl (v ∷ [])));
    bounded = ground (arith, length-append c.waiting (v ∷ []));
  })
]

Relays-write :
    (first : Value) (goes : Bool) (waiting : List Value) (c : Conn) (ys : List Value)
    → c.waiting ≡ waiting
    → Relays first c ys
    → Relays first (write_first goes waiting c) ys
Relays-write first goes [] c ys w r = r
Relays-write first true (v ∷ rest) c ys w r = record {
  taken = r.taken ++ v ∷ [];
  begins = rw r.begins refl;
  in_order = rw (w, ← append_assoc r.taken (v ∷ []) rest) at r.in_order;
  bounded = omega (arith, r.bounded, ap length w);
}
Relays-write first false (v ∷ rest) c ys w r = record {
  taken = r.taken;
  begins = r.begins;
  in_order =
      Sublist.trans (Sublist.append (Sublist.refl r.taken) (sublist-cons_self v rest))
        (rw w at r.in_order);
  bounded = omega (arith, r.bounded, ap length w);
}

Relays-turn :
    (first : Value) (goes on : Bool) (c : Conn) (ys : List Value)
    → Relays first c ys
    → Relays first (if on then write_first goes c.waiting c else c) ys
Relays-turn first goes true c ys r = Relays-write first goes c.waiting c ys refl r
Relays-turn first goes false c ys r = r

-- The messages that one event brings.
abbrev news : Event → List Value
news e = messages (e ∷ [])

Relays-apply :
    (first : Value) (e : Event) (c : Conn) (ys : List Value)
    → Relays first c ys
    → Relays first (apply e c) (ys ++ news e)
unfolding apply
Relays-apply first (published v) c ys r = Relays-message first v c ys r
Relays-apply first (written goes) c ys r =
    rw (append-nil ys) (Relays-turn first goes c.writes c ys r)
Relays-apply first (pinged true) c ys r = rw (append-nil ys) r
Relays-apply first (pinged false) c ys r =
    rw (append-nil ys)
      (record { taken = r.taken; begins = r.begins; in_order = r.in_order; bounded = r.bounded })
Relays-apply first read_failed c ys r =
    rw (append-nil ys)
      (record { taken = r.taken; begins = r.begins; in_order = r.in_order; bounded = r.bounded })
Relays-apply first subscription_failed c ys r =
    rw (append-nil ys)
      (record { taken = r.taken; begins = r.begins; in_order = r.in_order; bounded = r.bounded })

messages-first : (e : Event) (es : List Event) → messages (e ∷ es) ≡ news e ++ messages es
messages-first (published v) es = refl
messages-first (written goes) es = refl
messages-first (pinged goes) es = refl
messages-first read_failed es = refl
messages-first subscription_failed es = refl

Relays-run :
    (first : Value) (es : List Event) (c : Conn) (ys : List Value)
    → Relays first c ys
    → Relays first (run es c) (ys ++ messages es)
unfolding run
Relays-run first [] c ys r = rw (append-nil ys) r
Relays-run first (e ∷ es) c ys r =
    let rest = Relays-run first es (apply e c) (ys ++ news e) (Relays-apply first e c ys r) in
    rw (messages-first e es, ← append_assoc ys (news e) (messages es)) rest

-- Along a run, no message finds the channel full, and nothing fails.
abbrev pub GoesWell : List Event → Conn → Type 0
GoesWell [] c = Unit
GoesWell (published v ∷ es) c = (length c.waiting < 32) × GoesWell es (apply (published v) c)
GoesWell (written goes ∷ es) c = (goes ≡ true) × GoesWell es (apply (written goes) c)
GoesWell (pinged goes ∷ es) c = (goes ≡ true) × GoesWell es (apply (pinged goes) c)
GoesWell (read_failed ∷ es) c = ⊥
GoesWell (subscription_failed ∷ es) c = ⊥

-- All of `ys` is sent or waits, and the connection goes on.
record Holds (c : Conn) (ys : List Value) : Type 0 where
  all : c.sent ++ c.waiting ≡ ys
  on : c.writes ≡ true
  hears : c.listens ≡ true

Holds-if :
    (b : Bool) (c c' : Conn) (ys : List Value)
    → b ≡ true
    → Holds c' ys
    → Holds (if b then c' else c) ys
Holds-if true c c' ys e h = h
Holds-if false c c' ys e h = absurd (ground arith)

Holds-message :
    (v : Value) (c : Conn) (ys : List Value)
    → length c.waiting < 32
    → Holds c ys
    → Holds (apply (published v) c) (ys ++ v ∷ [])
unfolding apply
Holds-message v c ys room h =
    Holds-if (c.listens && has_room c) c _ (ys ++ v ∷ [])
      (rw (h.hears, ltb-true (length c.waiting) 32 room) refl)
      (record {
        all = sym (append_assoc c.sent c.waiting (v ∷ [])) ∙ ap (λ l. l ++ v ∷ []) h.all;
        on = h.on;
        hears = h.hears;
      })

Holds-write :
    (waiting : List Value) (c : Conn) (ys : List Value)
    → c.waiting ≡ waiting
    → Holds c ys
    → Holds (write_first true waiting c) ys
Holds-write [] c ys w h = h
Holds-write (v ∷ rest) c ys w h = record {
  all = append_assoc c.sent (v ∷ []) rest ∙ (rw w at h.all);
  on = h.on;
  hears = h.hears;
}

Holds-written : (c : Conn) (ys : List Value) → Holds c ys → Holds (apply (written true) c) ys
unfolding apply
Holds-written c ys h = Holds-if c.writes c _ ys h.on (Holds-write c.waiting c ys refl h)

Holds-run :
    (es : List Event) (c : Conn) (ys : List Value)
    → GoesWell es c
    → Holds c ys
    → Holds (run es c) (ys ++ messages es)
unfolding run
Holds-run [] c ys g h = rw (append-nil ys) h
Holds-run (published v ∷ es) c ys (room, g) h =
    rw (← append_assoc ys (v ∷ []) (messages es))
      (Holds-run es (apply (published v) c) (ys ++ v ∷ []) g (Holds-message v c ys room h))
Holds-run (written true ∷ es) c ys (goes, g) h =
    Holds-run es (apply (written true) c) ys g (Holds-written c ys h)
Holds-run (written false ∷ es) c ys (goes, g) h = absurd (ground arith)
Holds-run (pinged true ∷ es) c ys (goes, g) h = Holds-run es c ys g h
Holds-run (pinged false ∷ es) c ys (goes, g) h = absurd (ground arith)
Holds-run (read_failed ∷ es) c ys g h = elim g [ ]
Holds-run (subscription_failed ∷ es) c ys g h = elim g [ ]

-- Take a first frame that the server accepts, and any events after it. The socket gets the answer to the
-- frame and then, of the published messages, some, each at most once and in their order; those that wait
-- come after them in that order, and are never more than 32.
pub run-relays :
    (accepts : String → Bool) (reason : String) (frame : Value) (es : List Event)
    → authenticate accepts frame ≡ true
    → let c = run es (serve accepts reason frame) in
      (taken : List Value) × (c.sent ≡ answer accepts reason frame ∷ taken)
      × Sublist (taken ++ c.waiting) (messages es)
      × (length c.waiting ≤ 32)
unfolding serve
run-relays accepts reason frame es h =
    let r =
      Relays-run (answer accepts reason frame) es (serve accepts reason frame) []
        (record { taken = []; begins = refl; in_order = Sublist.refl []; bounded = omega arith }) in
    (r.taken, r.begins, r.in_order, r.bounded)

-- Take a first frame that the server accepts, and events after it of which none is a failure, where no message
-- finds the channel full. None is lost: the socket has got the answer to the frame and then, in order, every
-- message that does not wait in the channel.
pub run-loses_nothing :
    (accepts : String → Bool) (reason : String) (frame : Value) (es : List Event)
    → authenticate accepts frame ≡ true
    → GoesWell es (serve accepts reason frame)
    → let c = run es (serve accepts reason frame) in
      c.sent ++ c.waiting ≡ answer accepts reason frame ∷ messages es
unfolding serve
run-loses_nothing accepts reason frame es h g =
    let first = answer accepts reason frame ∷ [] in
    (Holds-run es (serve accepts reason frame) first g
      (record { all = refl; on = h; hears = h })).all
