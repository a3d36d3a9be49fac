-- ===== src/Lib.antt =====
-- The Auctoz auction site: its web client, and the part of its server that the client meets.
--
-- The client (frontend/src) is a React program. api.js keeps the session, sends the requests and reads
-- the stream of price updates; AuthScreen.jsx signs a visitor in, by a password and a CAPTCHA or by
-- Google, and locks its form after five wrong passwords; AuctionTerminal.jsx shows one auction, its
-- countdown and the bid form; AssetList.jsx lists the auctions. The screens call api.js and share its
-- token. The server (backend) is in Go and answers these requests; its bids meet in Redis, and a worker
-- settles an auction that has ended.
--
-- The files:
--   Prelude, Js: shared helpers, and the part of JavaScript that the client computes with: numbers,
--     texts, `String` and `Number` on whole numbers, and the values of a parsed JSON body.
--   Api: frontend/src/api.js. Session has persistSession, restoreSession, setAuthToken, getAuthToken
--     and getSessionUser, on a Store of the variable authToken and the entry of sessionStorage, with the
--     Contract of what these promise; Request has the functions that fetch; Stream has
--     connectAuctionStream as a step function from the browser's events to the socket's and the
--     caller's actions.
--   Auth: frontend/src/AuthScreen.jsx. Screen is the record of React's state with localStorage and the
--     calls that leave the program; Login has handleLogin, cut at its await, and handleRegister;
--     Captcha and Google have the effects that mount the two scripts and their callbacks; Validate and
--     Describe have the checks and the messages; Script has loadScript and LockClock lockoutClock;
--     Machine runs the handlers, effects and callbacks as events in any order; Mount runs the two
--     mounting effects as React does, when the mode changes; View is what the screen renders.
--   Terminal: frontend/src/AuctionTerminal.jsx. Screen has the state, the effects and submitBid; Clock
--     the countdown; Amount the bid's amount; Tape the order tape; Machine runs the events;
--     Live adds the effect that connects the stream; Payment has frontend/src/PaymentModal.jsx, and
--     Checkout the terminal with that dialog.
--   Assets: frontend/src/AssetList.jsx: the load, the views and the cards.
--   App: the routes of frontend/src/main.jsx and the frame of frontend/src/Layout.jsx.
--   Server: of backend/internal/handlers/handlers.go, Placing has the whole handler bid, with Bids for
--     its body, and createAuction; Redis the keys of an auction, Auction the part of bid that uses them
--     and the script of evalBid, its Requests several bids at once, each cut at its calls of Redis;
--     Limiter Allow and withMiddleware; SignIn auth with decode and validateTurnstileToken; Google
--     googleAuth with verifyGoogleIDToken; Listing listAuctions and a client that follows its cursors.
--     Hub has the first frame of a stream, and Relay a connection from then on
--     (backend/internal/websocket/hub.go); Settlement the worker
--     (backend/internal/settlement/worker.go); and Contract two points where the client and the server do
--     not fit.
--   Tests: runs at small inputs.
--
-- Conventions. A function that throws returns a Result; a handler maps a screen to a screen. A handler
-- that awaits is two functions, one up to the request and one from the answer on, and a machine may
-- put other events in between. `rendered` is the time of the render whose values a handler closed over,
-- `now` is `Date.now()` at its run.
--
-- Bounds. A number is a whole number or NaN; the code's numbers are whole milliseconds, counts and
-- prices below 2^53, where doubles are exact; only `toFixed`, in Js/Double, rounds beyond that. `Number` of a text with a fraction, an exponent or a sign
-- is NaN here. An entry of sessionStorage is kept as what `JSON.parse` makes of it, a value or a text
-- that does not parse. Reading and removing entries does not throw, and writing localStorage does not;
-- writing sessionStorage may, and may store anything, by the argument `Writer`. Texts are lowered by
-- their ASCII letters. The fuel of `String(n)` and of the digit groups is the number itself, which
-- exceeds its count of digits; that of a visit is the number of redirects, and two are enough; that of
-- a client that collects the pages of a list is the number of auctions, as no page is empty before the
-- last. A double is found by at most 971 halvings, since the largest is below 2^1024, and seventeen
-- digits are enough to tell it. The messages of the errors that the engine throws are V8's.
--
-- Parameters. The network answers a request by a `Network`; `new Date(v).getTime()` is `get_time`; the
-- way `toFixed` rounds a tie is `up`; the server's checks of a token and of a UUID are `accepts` and
-- `is_uuid`; React Router's matching is a `Router` with its documented laws; the way an amount of money
-- is written is `Formatting`; which calls of Redis and of the database go through is a `Link` or `Calls`
-- of each request. The checks and hashes of passwords, the signing of tokens and the answers of
-- Cloudflare are the functions of `Libraries`, Google's answer is `tokeninfo`, and a cursor is written and
-- read by `encode` and `decode`. The server's clock and that of Redis agree. The scripts of Cloudflare and
-- Google are given by what loading them came to.
--
-- Not modelled: the static markup and the styles, the doubled effects of React's StrictMode,
-- frontend/dist and frontend/node_modules, and the rest of the server: the handlers for one auction and
-- for the health of the server, the check of a token by its library, clientIP and the set-up.
pub mod Prelude
pub mod Js
pub mod Api
pub mod Auth
pub mod Terminal
pub mod Assets
pub mod App
pub mod Server
pub mod Tests
