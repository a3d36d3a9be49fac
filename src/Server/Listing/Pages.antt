-- ===== src/Server/Listing/Pages.antt =====
-- The pages of the list of auctions, one after the other.
use synora_hackathon.Prelude.{
  ℕ, zero, suc, ◌≤◌, ◌<◌, ◌≡◌, refl, ap, sym, ◌∙◌, Bool, true, false, Option, some, List, [], ◌∷◌,
  String, arith, ltb, length, take, drop, filter, All, Bool-cases, inl, inr, take-drop, take-take,
  length-drop, take_all, ltb-false, ltb-true, length-take,
}
use synora_hackathon.Js.Text.{is_empty}
use synora_hackathon.Server.Listing.{
  Auction, Cursor, is_after, is_of_status, select_page, status_or_active, page, last_cursor,
  page_of, list_auctions, collect,
}
use synora_hackathon.Server.Listing.Order.{
  key, Descends, Sorted, Descends-Sorted, after_trans, last, All-last, filter-last, filter-filter,
  All-filter, filter-All, Sorted-filter, IsClosed, is_dated,
}

module _ (encode : Cursor → String) (decode : String → Option Cursor) where
  last_cursor-last :
      (a : Auction) (rest : List Auction)
      → is_dated (last a rest) ≡ true
      → last_cursor encode (a ∷ rest) ≡ encode (key (last a rest))
  last_cursor-last a [] h = ground arith
  last_cursor-last a (b ∷ rest) h = last_cursor-last b rest h

  module _ (table : List Auction) (status : String) (d : Descends table)
      (dated : All (λ a. is_dated a ≡ true) table) (n : ℕ) (small : n < 100)
      (full : (c : Cursor) → is_empty (encode c) ≡ false)
      (back : (c : Cursor) → decode (encode c) ≡ some c) where
    abbrev pub chosen : List Auction
    chosen = filter (is_of_status (status_or_active status)) table

    -- The answer for a cursor is the page out of the auctions behind it.
    list_auctions-cursor :
        (c : Cursor)
        → list_auctions encode decode status (some (suc n)) (encode c) table
          ≡ page_of encode (suc n) (take (suc (suc n)) (filter (is_after c) chosen))
    unfolding list_auctions select_page
    list_auctions-cursor c = rw (full c, back c, ltb-false 100 (suc n) (omega arith)) refl

    -- A page that is full, or the last one.
    page_of-full :
        (a : Auction) (rest : List Auction)
        → n < length rest
        → is_dated (last a (take n rest)) ≡ true
        → page_of encode (suc n) (take (suc (suc n)) (a ∷ rest))
          ≡ page (a ∷ take n rest) (encode (key (last a (take n rest)))) true
    unfolding page_of take
    page_of-full a rest h t =
        rw
          (
            length-take (suc n) rest (omega arith),
            ltb-true (suc n) (suc (suc n)) (omega arith),
            take-take n rest,
            last_cursor-last a (take n rest) t,
          )
          refl

    page_of-short :
        (rest : List Auction)
        → length rest ≤ suc n
        → page_of encode (suc n) (take (suc (suc n)) rest) ≡ page rest "" false
    unfolding page_of
    page_of-short rest h =
        rw (take_all (suc (suc n)) rest (omega arith), ltb-false (suc n) (length rest) h) refl

    -- What a condition chooses, when it is `a ∷ rest`: its order, and the last of a page of it.
    record Chosen (p : Auction → Bool) (a : Auction) (rest : List Auction) : Type 0 where
      order : Sorted (a ∷ rest)
      last_in : p (last a (take n rest)) ≡ true
      last_dated : is_dated (last a (take n rest)) ≡ true

    chosen-Chosen :
        (p : Auction → Bool) (a : Auction) (rest : List Auction)
        → filter p chosen ≡ a ∷ rest
        → Chosen p a rest
    chosen-Chosen p a rest r =
        let order : Sorted (a ∷ rest) = rw r at (
          Sorted-filter p chosen (
            Sorted-filter (is_of_status (status_or_active status)) table
              (Descends-Sorted table d))) in
        let (i, is) : All (λ b. p b ≡ true) (a ∷ rest) = rw r at (filter-All p chosen) in
        let (t, ts) : All (λ b. is_dated b ≡ true) (a ∷ rest) = rw r at (
          All-filter is_dated p chosen
            (All-filter is_dated (is_of_status (status_or_active status)) table dated)) in
        record {
          order = order;
          last_in = All-last p n a rest i is;
          last_dated = All-last is_dated n a rest t ts;
        }

    collect-page :
        (fuel : ℕ) (cursor : String) (p : Auction → Bool) (rest : List Auction)
        → IsClosed p
        → filter p chosen ≡ rest
        → list_auctions encode decode status (some (suc n)) cursor table
          ≡ page_of encode (suc n) (take (suc (suc n)) rest)
        → length rest ≤ fuel
        → collect encode decode fuel status (suc n) cursor table ≡ rest
    unfolding collect
    collect-page zero cursor p [] up r e h = refl
    collect-page zero cursor p (a ∷ rest) up r e h = absurd (omega arith)
    collect-page (suc fuel) cursor p [] up r e h =
        rw (collect, e, page_of-short [] (omega arith)) refl
    collect-page (suc fuel) cursor p (a ∷ rest) up r e h = elim (Bool-cases (ltb n (length rest))) [
      | inr short ↦ rw (collect, e, page_of-short (a ∷ rest) (ground arith)) refl
      | inl more ↦
          let c = chosen-Chosen p a rest r in
          let y = last a (take n rest) in
          let next : filter (is_after (key y)) chosen ≡ drop n rest =
            sym (filter-filter p (is_after (key y)) chosen (λ z q. up y z c.last_in q))
            ∙ ap (filter (is_after (key y))) r
            ∙ filter-last n a rest c.order in
          let later =
            collect-page fuel (encode (key y)) (is_after (key y)) (drop n rest)
              (after_trans (key y)) next (rw next at (list_auctions-cursor (key y)))
              (omega (arith, length-drop n rest)) in
          rw (collect, e, page_of-full a rest (ground arith) c.last_dated, later)
            (ap (◌∷◌ a) (take-drop n rest))
    ]

    filter-true : (rest : List Auction) → filter (λ a. true) rest ≡ rest
    unfolding filter
    filter-true [] = refl
    filter-true (a ∷ rest) = ap (◌∷◌ a) (filter-true rest)

    list_auctions-first :
        list_auctions encode decode status (some (suc n)) "" table
        ≡ page_of encode (suc n) (take (suc (suc n)) chosen)
    unfolding list_auctions select_page
    list_auctions-first = rw (ltb-false 100 (suc n) (omega arith)) refl

    -- A client that begins without a cursor and follows each page's cursor to the next page, while the
    -- page says that there is more, gets every auction of the status exactly once, in order, in at most as
    -- many pages as there are auctions. The table is in the query's order, with no two auctions of the same
    -- start and id and none that starts at Go's zero time; the limit is 1 to 100; and the text of a cursor
    -- is not empty and is read back as the cursor.
    pub collect_all :
        (fuel : ℕ)
        → length chosen ≤ fuel
        → collect encode decode fuel status (suc n) "" table ≡ chosen
    collect_all fuel h =
        collect-page fuel "" (λ a. true) chosen (λ a b x y. refl) (filter-true chosen)
          list_auctions-first h
