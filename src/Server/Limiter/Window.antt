-- ===== src/Server/Limiter/Window.antt =====
-- How many requests a limiter lets through in a minute.
use synora_hackathon.Prelude.{
  ℕ, ◌+◌, ◌-◌, ◌*◌, ◌≤◌, ◌<◌, ◌≡◌, inl, inr, refl, Bool, true, false, ◌&&◌, Option, none, some,
  List, [], ◌∷◌, String, str_eq, eq_iff, arith, leb, if◌then◌else◌, Bool-cases,
}
use synora_hackathon.Server.Limiter.{LimitEntry, Limiter, allow_entry, allow, passes}

-- The requests come in the order of their times, in the minute from `t` on.
abbrev pub InMinute : (t from : ℕ) → List (ℕ × String) → Type 0
InMinute t from [] = Unit
InMinute t from ((now, q) ∷ es) = (from ≤ now) × (now < t + 60000) × InMinute t now es

-- No minute has counted more than the limit.
abbrev pub IsCounted : ℕ → Option LimitEntry → Type 0
IsCounted max none = Unit
IsCounted max (some e) = e.n ≤ max

-- What may still pass until the minute from `t` on is over.
abbrev budget : ℕ → ℕ → Option LimitEntry → ℕ
budget t max none = max
budget t max (some e) = if leb t e.at then max - e.n else max + max - e.n

abbrev one_if : Bool → ℕ
one_if true = 1
one_if false = 0

spends :
    (t now max : ℕ) (o : Option LimitEntry)
    → t ≤ now
    → now < t + 60000
    → 0 < max
    → IsCounted max o
    → let (o', ok, retry) = allow_entry now max o in
      IsCounted max o' × (one_if ok + budget t max o' ≤ budget t max o)
unfolding allow_entry
spends t now max none h n m c = ground arith
spends t now max (some e) h n m c = ground arith

and_true : (b : Bool) → (b && true) ≡ b
and_true true = refl
and_true false = refl

and_false : (b : Bool) → (b && false) ≡ false
and_false true = refl
and_false false = refl

-- One request, of `k` or not: what it takes from the budget of `k`.
turn_spends :
    (t now : ℕ) (k q : String) (l : Limiter)
    → t ≤ now
    → now < t + 60000
    → 0 < l.max
    → IsCounted l.max (l.m k)
    → let (l', ok, retry) = allow now q l in
      IsCounted l.max (l'.m k)
      × (one_if (ok && str_eq k q) + budget t l.max (l'.m k) ≤ budget t l.max (l.m k))
unfolding allow
turn_spends t now k q l h n m c = elim (Bool-cases (str_eq k q)) [
  | inl same ↦
      let p = (eq_iff k q).0 same in
      rw (same, ← p, and_true ((allow_entry now l.max (l.m k)).1))
        (spends t now l.max (l.m k) h n m c)
  | inr other ↦ rw (other, and_false ((allow_entry now l.max (l.m q)).1)) (c, omega arith)
]

passes-budget :
    (k : String) (t from : ℕ) (es : List (ℕ × String)) (l : Limiter)
    → t ≤ from
    → InMinute t from es
    → 0 < l.max
    → IsCounted l.max (l.m k)
    → passes k es l ≤ budget t l.max (l.m k)
unfolding passes
passes-budget k t from [] l h i m c = ground arith
passes-budget k t from ((now, q) ∷ es) l h (a, n, i) m c =
    let l' = (allow now q l).0 in
    let (c', spent) = turn_spends t now k q l (omega arith) n m c in
    let rest = passes-budget k t now es l' (omega arith) i m c' in ground arith

budget-le : (t max : ℕ) (o : Option LimitEntry) → budget t max o ≤ 2 * max
budget-le t max none = ground arith
budget-le t max (some e) = ground arith

-- Take any requests that reach a limiter in order, all within a minute, from any keys, where no entry of
-- the limiter has counted more than the limit. At most twice the limit of one key's pass.
pub passes-le :
    (k : String) (t : ℕ) (es : List (ℕ × String)) (l : Limiter)
    → InMinute t t es
    → 0 < l.max
    → IsCounted l.max (l.m k)
    → passes k es l ≤ 2 * l.max
passes-le k t es l i m c =
    omega (arith, passes-budget k t t es l (omega arith) i m c, budget-le t l.max (l.m k))
