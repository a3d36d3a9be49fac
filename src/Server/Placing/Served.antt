-- ===== src/Server/Placing/Served.antt =====
-- The bids of the client at the server.
use synora_hackathon.Prelude.{ℕ, ◌≡◌, ◌∙◌, refl, ap, Bool, true, Option, none, some, String}
use synora_hackathon.Js.Value.{Value, truthy, text_of, member, end}
use synora_hackathon.Api.Base.{Network, Response, response, post}
use synora_hackathon.Api.Request.{bid_request}
use synora_hackathon.Terminal.Screen.{Screen, submit_bid}
use synora_hackathon.Terminal.Bidding.{submit_bid-outcome, after_bid}
use synora_hackathon.Server.Redis.{Keys}
use synora_hackathon.Server.Limiter.{write_err}
use synora_hackathon.Server.Auction.{Link}
use synora_hackathon.Server.Placing.{Table, handle_bid}

-- The words for a bid of this client.
abbrev pub words_for : Option String → String
words_for none = "REJECTED / Authentication required"
words_for (some user) = "REJECTED / Invalid bid"

module _ (is_uuid : String → Bool) (format : ℕ → String) where
  abbrev refusal : Option String → Response
  refusal none = write_err 401 "AUTH_REQUIRED" "Authentication required" end
  refusal (some user) = write_err 400 "INVALID_AMOUNT" "Invalid bid" end

  handle_bid-client :
      (queries : Bool) (link : Link) (now : ℕ) (user : Option String) (auction_id amount : String)
      (token : Value) (table : Table) (store : String → Keys)
      → handle_bid is_uuid format queries link now post user
          (some (bid_request auction_id amount token).body)
          table
          store
        ≡ (store, refusal user)
  unfolding handle_bid
  handle_bid-client queries link now none auction_id amount token table store = refl
  handle_bid-client queries link now (some user) auction_id amount token table store = refl

  after-refusal :
      (user : Option String) (s : Screen)
      → after_bid (response (refusal user)) s ≡ record s { message = words_for user }
  unfolding text_of member
  after-refusal none s = refl
  after-refusal (some user) s = refl

  -- Take a visitor with a token, at a network that passes the bid on to the handler and its answer back.
  -- Whatever the auction, the amount, the state of the server and the user that it reads from the token,
  -- the bid changes no key, and the terminal keeps its price and shows that the bid is invalid, or that the
  -- visitor is not signed in: the client's key "auction_id" is no field of the server's struct.
  pub submit_bid-served :
      (queries : Bool) (link : Link) (now : ℕ) (user : Option String) (table : Table)
      (store : String → Keys) (net : Network) (auction_id : String) (token : Value) (s : Screen)
      → truthy token ≡ true
      → let (store', x) =
          handle_bid is_uuid format queries link now post user
            (some (bid_request auction_id s.amount token).body)
            table
            store in
        net (bid_request auction_id s.amount token) ≡ response x
        → (store' ≡ store)
          × (submit_bid net auction_id token s ≡ record s { message = words_for user })
  submit_bid-served queries link now user table store net auction_id token s t h =
      let e = handle_bid-client queries link now user auction_id s.amount token table store in
      (
        ap (λ p. p.0) e,
        submit_bid-outcome net auction_id token s ∙ rw (t, h, e) (after-refusal user s),
      )
