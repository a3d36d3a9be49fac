-- ===== src/Server/Contract.antt =====
-- Where the client and the server meet.
use synora_hackathon.Prelude.{◌≡◌, refl, Bool, false, Option, some, String, arith}
use synora_hackathon.Js.Value.{Value, Items, member}
use synora_hackathon.Api.Base.{Network, response}
use synora_hackathon.Api.Stream.{auth_frame}
use synora_hackathon.Api.Request.{get_request, get_all_assets}
use synora_hackathon.Assets.{mock_assets, has_items, initial, load_assets, grid, view}
use synora_hackathon.Server.Listing.{list_body}
use synora_hackathon.Server.Hub.{authenticate}

-- The server never lets a stream of this client in, whatever its token and whatever tokens the
-- server accepts: the client's frame has the type "auth", and the server wants "AUTH".
pub authenticate-auth_frame :
    (accepts : String → Bool) (token : Value) → authenticate accepts (auth_frame token) ≡ false
unfolding authenticate
authenticate-auth_frame accepts token = ground arith

-- Where the server answers the request for the list of auctions with a list of its own shape, the
-- page shows the built-in examples and not one auction of the list: the client looks for the fields
-- "auctions" and "assets", and the server's field is "items".
pub load_assets-list_body :
    (net : Network) (token : Value) (items : Items) (next_cursor : String) (more : Bool)
    (retry : Option String)
    → net (get_request "/auctions" token)
      ≡ response (record {
        status = 200;
        body = some (list_body items next_cursor more);
        retry_header = retry;
      })
    → view (load_assets net token initial) ≡ grid mock_assets
unfolding load_assets get_all_assets list_body member has_items view
load_assets-list_body net token items next_cursor more retry h = rw h refl
