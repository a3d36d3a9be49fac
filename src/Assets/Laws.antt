-- ===== src/Assets/Laws.antt =====
-- What the list of auctions shows, and its total.
use Prim.Native.String.{◌++◌}
use synora_hackathon.Prelude.{ℕ, ◌+◌, ◌≡◌, refl, ◌⊎◌, inl, inr, true, String, Bool-cases}
use synora_hackathon.Js.Number.{Num, pos, add}
use synora_hackathon.Js.Value.{Value, num, str, Items, nil, cons, or_else, member, num_of, text_of}
use synora_hackathon.Api.Base.{Result, ok, err, Network}
use synora_hackathon.Api.Request
use synora_hackathon.Assets.{
  has_items, mock_assets, Screen, initial, finish_load, load_assets, grid, view, is_text,
  total_volume,
}

finish_load_shows :
    (r : Result Value) (s : Screen)
    → s.error ≡ ""
    → ((v : Value) × (r ≡ ok v) × (has_items v ≡ true) × (view (finish_load r s) ≡ grid v))
      ⊎ (view (finish_load r s) ≡ grid mock_assets)
unfolding finish_load view
finish_load_shows (err e) s h = inr (rw h)
finish_load_shows (ok v) s h = elim (Bool-cases (has_items v)) [
  | inl some_items ↦ inl (v, refl, some_items, rw (some_items, h))
  | inr none_found ↦ inr (rw (none_found, h))
]

-- Whatever the server does, the page ends up with a list and neither loading nor failed: with the
-- auctions of the answer if there is one that holds any, and with the built-in examples otherwise.
load_assets_shows :
    (net : Network) (token : Value)
    → ((v : Value) × (Request.get_all_assets net token ≡ ok v)
        × (has_items v ≡ true)
        × (view (load_assets net token initial) ≡ grid v))
      ⊎ (view (load_assets net token initial) ≡ grid mock_assets)
unfolding load_assets
load_assets_shows net token =
    finish_load_shows (Request.get_all_assets net token) (record initial { loading = true }) refl

-- The sum of the prices, as numbers.
abbrev pub PriceSum : ℕ → Items → ℕ → Type 0
PriceSum sum nil total = sum ≡ total
PriceSum sum (cons a rest) total =
    (p : ℕ) × (or_else (member "current_high_price" a) (num (pos 0)) ≡ num (pos p))
    × PriceSum (sum + p) rest total

-- Where every price is a number or is missing, the total is their sum.
pub total_volume_numbers :
    (sum : ℕ) (xs : Items) (total : ℕ)
    → PriceSum sum xs total
    → total_volume (num (pos sum)) xs ≡ num (pos total)
unfolding total_volume
total_volume_numbers sum nil total h = rw h
total_volume_numbers sum (cons a rest) total (p, e, h) =
    rw e (total_volume_numbers (sum + p) rest total h)

abbrev pub HasTextPrice : Items → Type 0
HasTextPrice nil = ⊥
HasTextPrice (cons a rest) =
    ((t : String) × (or_else (member "current_high_price" a) (num (pos 0)) ≡ str t))
    ⊎ HasTextPrice rest

total_volume_of_text : (xs : Items) (t : String) → (u : String) × (total_volume (str t) xs ≡ str u)
unfolding total_volume
total_volume_of_text nil t = (t, refl)
total_volume_of_text (cons a rest) t =
    total_volume_of_text rest (t ++ text_of (or_else (member "current_high_price" a) (num (pos 0))))

-- Where one price is a text, as the server sends them, the total is a text and not a number.
total_volume_texts :
    (n : Num) (xs : Items) → HasTextPrice xs → (u : String) × (total_volume (num n) xs ≡ str u)
unfolding total_volume
total_volume_texts n nil h = absurd h
total_volume_texts n (cons a rest) (inl (t, e)) =
    rw e (total_volume_of_text rest (text_of (num n) ++ t))
total_volume_texts n (cons a rest) (inr h) =
    elim (Bool-cases (is_text (or_else (member "current_high_price" a) (num (pos 0))))) [
      | inl text ↦ rw text (
          total_volume_of_text rest
            (text_of (num n) ++ text_of (or_else (member "current_high_price" a) (num (pos 0)))))
      | inr number ↦ rw number (
          total_volume_texts
            (add n (num_of (or_else (member "current_high_price" a) (num (pos 0))))) rest h)
    ]
