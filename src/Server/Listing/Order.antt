-- ===== src/Server/Listing/Order.antt =====
-- The order of the list of auctions, and what comes behind a cursor in it.
use synora_hackathon.Prelude.{
  ℕ, zero, suc, ◌<◌, ◌≡◌, refl, ap, Bool, true, false, not, List, [], ◌∷◌, arith, ◌==◌, take, drop,
  filter, All, Bool-cases, inl, inr, ◌⊎◌,
}
use synora_hackathon.Server.Listing.{Auction, Cursor, is_after}

abbrev pub key : Auction → Cursor
key a = (a.start, a.id)

-- `order by start_time desc, id desc`.
abbrev pub Precedes : Auction → Auction → Type 0
Precedes a b = (b.start < a.start) ⊎ ((b.start ≡ a.start) × (b.id < a.id))

-- The order of the query, without equal keys.
abbrev pub Descends : List Auction → Type 0
Descends [] = Unit
Descends (a ∷ rest) = All (λ b. Precedes a b) rest × Descends rest

-- The same by the condition that the code puts into the query.
abbrev pub Sorted : List Auction → Type 0
Sorted [] = Unit
Sorted (a ∷ rest) = All (λ b. is_after (key a) b ≡ true) rest × Sorted rest

Precedes-after : (a b : Auction) → Precedes a b → is_after (key a) b ≡ true
Precedes-after a b (inl earlier) = ground arith
Precedes-after a b (inr (same, lower)) = ground arith

All-after :
    (a : Auction) (rest : List Auction)
    → All (λ b. Precedes a b) rest
    → All (λ b. is_after (key a) b ≡ true) rest
All-after a [] h = tt
All-after a (b ∷ rest) (h, hs) = (Precedes-after a b h, All-after a rest hs)

pub Descends-Sorted : (rest : List Auction) → Descends rest → Sorted rest
Descends-Sorted [] d = tt
Descends-Sorted (a ∷ rest) (h, d) = (All-after a rest h, Descends-Sorted rest d)

pub after_trans :
    (c : Cursor) (a b : Auction)
    → is_after c a ≡ true
    → is_after (key a) b ≡ true
    → is_after c b ≡ true
after_trans (s, i) a b h k = ground arith

not_after : (a b : Auction) → is_after (key a) b ≡ true → is_after (key b) a ≡ false
not_after a b h = ground arith

not_after_self : (a : Auction) → is_after (key a) a ≡ false
not_after_self a = ground arith

-- The last of the auctions `a ∷ as`.
abbrev pub last : Auction → List Auction → Auction
last a [] = a
last a (b ∷ bs) = last b bs

filter_same :
    (p : Auction → Bool) (rest : List Auction) → All (λ a. p a ≡ true) rest → filter p rest ≡ rest
unfolding filter
filter_same p [] h = refl
filter_same p (a ∷ rest) (h, hs) = rw h (ap (◌∷◌ a) (filter_same p rest hs))

pub All-last :
    (p : Auction → Bool) (n : ℕ) (a : Auction) (rest : List Auction)
    → p a ≡ true
    → All (λ a. p a ≡ true) rest
    → p (last a (take n rest)) ≡ true
unfolding take
All-last p zero a rest h hs = h
All-last p (suc n) a [] h hs = h
All-last p (suc n) a (b ∷ rest) h (k, hs) = All-last p n b rest k hs

-- What comes after the last of `n` more auctions is the rest.
pub filter-last :
    (n : ℕ) (a : Auction) (rest : List Auction)
    → Sorted (a ∷ rest)
    → filter (is_after (key (last a (take n rest)))) (a ∷ rest) ≡ drop n rest
unfolding filter take drop
filter-last zero a rest (h, hs) = rw (not_after_self a) (filter_same (is_after (key a)) rest h)
filter-last (suc n) a [] d = rw (not_after_self a) refl
filter-last (suc n) a (b ∷ rest) ((h, hs), d) =
    rw (not_after a (last b (take n rest)) (All-last (is_after (key a)) n b rest h hs))
      (filter-last n b rest d)

-- Two conditions of which the second implies the first.
pub filter-filter :
    (p q : Auction → Bool) (rest : List Auction)
    → ((a : Auction) → q a ≡ true → p a ≡ true)
    → filter q (filter p rest) ≡ filter q rest
unfolding filter
filter-filter p q [] h = refl
filter-filter p q (a ∷ rest) h = elim (Bool-cases (p a)) [
  | inl in_p ↦ rw (in_p, filter-filter p q rest h) refl
  | inr out_p ↦ elim (Bool-cases (q a)) [
    | inl in_q ↦ let in_p = h a in_q in absurd (ground arith)
    | inr out_q ↦ rw (out_p, out_q) (filter-filter p q rest h)
  ]
]

pub All-filter :
    (q p : Auction → Bool) (rest : List Auction)
    → All (λ a. q a ≡ true) rest
    → All (λ a. q a ≡ true) (filter p rest)
unfolding filter
All-filter q p [] h = tt
All-filter q p (a ∷ rest) (h, hs) = elim (Bool-cases (p a)) [
  | inl in_p ↦ rw in_p (h, All-filter q p rest hs)
  | inr out_p ↦ rw out_p (All-filter q p rest hs)
]

pub filter-All : (p : Auction → Bool) (rest : List Auction) → All (λ a. p a ≡ true) (filter p rest)
unfolding filter
filter-All p [] = tt
filter-All p (a ∷ rest) = elim (Bool-cases (p a)) [
  | inl in_p ↦ rw in_p (in_p, filter-All p rest)
  | inr out_p ↦ rw out_p (filter-All p rest)
]

pub Sorted-filter :
    (p : Auction → Bool) (rest : List Auction) → Sorted rest → Sorted (filter p rest)
unfolding filter
Sorted-filter p [] d = tt
Sorted-filter p (a ∷ rest) (h, d) = elim (Bool-cases (p a)) [
  | inl in_p ↦ rw in_p (All-filter (is_after (key a)) p rest h, Sorted-filter p rest d)
  | inr out_p ↦ rw out_p (Sorted-filter p rest d)
]

-- With an auction, a condition holds of all that come after it.
abbrev pub IsClosed : (Auction → Bool) → Type 0
IsClosed p = (a b : Auction) → p a ≡ true → is_after (key a) b ≡ true → p b ≡ true

abbrev pub is_dated : Auction → Bool
is_dated a = not (a.start == 0)
