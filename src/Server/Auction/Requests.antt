-- ===== src/Server/Auction/Requests.antt =====
-- backend/internal/handlers/handlers.go, lines 632 to 677: requests to bid on one auction that are
-- under way at once. A request is cut at its calls of Redis and at its second look at the clock, and
-- other requests may come between any two of these.
pub mod Order
pub mod Late
use synora_hackathon.Prelude.{
  ℕ, zero, suc, ◌+◌, ◌*◌, Bool, true, false, not, ◌||◌, some, List, [], ◌∷◌, ◌++◌, if◌then◌else◌,
}
use synora_hackathon.Server.Redis.{Entry, Keys, set_nx, until}
use synora_hackathon.Server.Auction.{
  Row, Bid, Reply, not_biddable, unavailable, reply_of, is_created, is_biddable, ttl_seconds,
  eval_bid,
}

-- How far a request has come; `timed` has the time from which its expiry counts.
pub data Phase : Type 0 where
  asked seeded activated : Phase
  timed : (since : ℕ) → Phase
  answered : Reply → Phase

pub record Request : Type 0 where
  pub bid : Bid
  pub phase : Phase

-- The next part of a request, at `now`.
unfoldable pub advance : Row → ℕ → Bid → Phase → Keys → Keys × Phase
unfolding eval_bid
advance r now b asked k =
    if not (is_biddable now r)
    then (k, answered not_biddable)
    else if not b.link.sets_price
    then (k, answered unavailable)
    else (record k { price = set_nx now r.starting_price k.price }, seeded)
advance r now b seeded k = if not b.link.sets_status then (k, answered unavailable) else (
  record k { status = some (record { text = "ACTIVE"; ends = until now r.end_time }) },
  activated,
)
advance r now b activated k =
    if is_biddable now r then (k, timed now) else (k, answered not_biddable)
advance r now b (timed since) k =
    if not b.link.evals
    then (k, answered unavailable)
    else (let (k', verdict) =
          eval_bid now (now + ttl_seconds since r.end_time * 1000) b.amount b.user k in
        (k', answered (reply_of b.amount verdict)))
advance r now b (answered reply) k = (k, answered reply)

-- Whether this part of the request has answered it by `created`.
abbrev pub has_won : Phase → Phase → Bool
has_won (answered reply) after = false
has_won before (answered reply) = is_created reply
has_won before after = false

-- The next part of the request number `i`, and the bid if it is accepted by that.
unfoldable pub turn : Row → ℕ → ℕ → List Request → Keys → (Keys × List Request) × List Bid
unfolding advance
turn r i now [] k = ((k, []), [])
turn r zero now (q ∷ qs) k =
    let (k', phase) = advance r now q.bid q.phase k in
    ((k', record q { phase = phase } ∷ qs), if has_won q.phase phase then q.bid ∷ [] else [])
turn r (suc i) now (q ∷ qs) k =
    let ((k', qs'), accepted) = turn r i now qs k in ((k', q ∷ qs'), accepted)

-- A schedule: which request goes on, and when.
unfoldable pub schedule :
    Row → List (ℕ × ℕ) → List Request → Keys → (Keys × List Request) × List Bid
unfolding turn
schedule r [] qs k = ((k, qs), [])
schedule r ((i, now) ∷ turns) qs k =
    let ((k', qs'), won) = turn r i now qs k in
    let (end, accepted) = schedule r turns qs' k' in (end, won ++ accepted)
