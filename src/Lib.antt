-- ===== src/Lib.antt =====
-- LogiTrack's web console: its server code and the logic of its operations page.
--
-- The program is a Next.js application in web/. A browser signs in through Amazon Cognito, then reads
-- pages that are rendered by the application and calls the API through the application's proxy. The
-- server code holds no session: the access token is in a cookie, and each request verifies it anew.
-- On the page, React state is kept up to date by an event stream and by loads over HTTP.
--
-- Which file models what:
-- - Base: shared notation; tests, lists and integers over the native numbers.
-- - Js: strings as UTF-16 units (Js/Text), code points, UTF-8 and encodeURIComponent (Js/Unicode),
--   exceptions as results (Js/Result), JSON values (Js/Json), Map (Js/Dict), and code that may throw
--   and keeps module state (Js/Exec).
-- - Http: requests, responses, cookies, and `Platform`, the record of what is not in the repository:
--   the environment, the URL parser, the decoding of JSON and jose's jwtVerify.
-- - Bytes: readBoundedBody and the reading loop of readBoundedTokenResponse; Bytes/Relay is
--   boundedResponseBody.
-- - Auth: web/app/auth. Config, AccessToken, RequestOrigin, Login and Logout are its files of those
--   names; Callback is callback/route.ts (TokenResponse its input checks, Redirect its `finish`,
--   Handler its `GET`). Safety, Reset, Roundtrip, Clearing, Claims and Verify hold the proofs.
-- - Backend: web/app/backend/[...path]/route.ts. Parts has its checks and its two ends, Handler the
--   function `proxy`.
-- - Csp: web/csp.ts; Reading has how a browser reads a policy. Gate: web/proxy.ts, the
--   gate in front of the pages.
-- - Console: web/app/types.ts (Types), and of web/app/console/page.tsx the rows that the page keeps
--   (Rows, Live), the loops over pages (Paging), `pollAfterCompletion` (Poll), the pages of the
--   dead-letter queue (Recovery), `retryOutbox` (Retry), and `receiveStock` and `pickAndDispatch`
--   (Warehouse). Api: web/app/api.ts.
-- - Runtime: the effect of web/app/components/RuntimeVersionGuard.tsx; Runtime/Route is
--   web/app/api/runtime-version/route.ts.
-- - Fleet: the lists of deliveries of web/app/console/page.tsx (Lists), what is drawn of them and which
--   delivery is selected (Chosen, with FleetTelemetryPanel), the age of a position (Freshness), and of
--   web/app/components/FleetMap.tsx the features (Features), the loading of the map (Reload) and what
--   the enlarged map does to the page behind it (Background).
-- - Panels: the panels in web/app/components. Rows has their rows, Filters and Queues the lists that they
--   filter and sort, Shown the counts of rows on show, Alerts the list of AlertOperationsPanel,
--   Selection the events that ReplayOperationsPanel selects.
-- - Examples: concrete runs.
--
-- How they interact: the proxy, the gate and the callback call verify_access_token, which reads the
-- configuration and the cache of key sets; the cache is passed as state, and IsConsistent says what
-- any such cache holds. The proxy and the logout ask is_same_origin_mutation. The gate builds the
-- policy of Csp. The callback takes up the cookies that the login sets.
--
-- Conventions. A handler is a function of the request, the times that Date.now() gives in milliseconds
-- and the calls that leave the process (fetch), into a result: a thrown exception is a value, and
-- module state that was written before it stays. The bodies of requests and responses are sequences
-- of reads, each of which gives bytes, ends or fails; a time-out is a failed read or call. Two calls
-- that the callback awaits together run one after the other here: neither reads what the other
-- writes but the cache, and a failure of either ends the callback in the same way. Recursion is on
-- the data but in Console/Paging, whose loops run on fuel: the number of pages is enough. A stream or
-- a timer is pulled or fired by an explicit event, and a property over events holds for every sequence
-- of them. A number of JSON is an integer of any size or not one; the program compares integers below
-- 2^53 only with small ones.
--
-- `new Date(text).getTime()` is a parameter that gives an integer, or none for NaN; `toLowerCase` of any
-- text is a parameter too, but for header values, and so are SHA-256 and the `String` of a value that is no
-- text. `sort` is a stable insertion sort. React's renders are explicit events where the order matters
-- (Fleet/Reload).
--
-- Not modelled: the rendering of the pages and the panels, the layers, pop-ups and controls of the map,
-- which are calls of MapLibre, the other commands of the console page; the API (api/), the
-- analytics (analytics/), the simulator (simulator/) and the deployment, which are other programs.
pub mod Base
pub mod Js
pub mod Bytes
pub mod Http
pub mod Headers
pub mod Auth
pub mod Backend
pub mod Csp
pub mod Gate
pub mod Console
pub mod Panels
pub mod Fleet
pub mod Runtime
pub mod Api
pub mod Examples
