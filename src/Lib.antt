-- ===== src/Lib.antt =====
-- Aapda Sync, the standalone front end (frontend/standalone/src): a model of its core logic and
-- the theorems about it. The page is one program over two objects: the store `S` (data.js) and
-- `AUTH` (auth.js). Handlers change them and paint; timers do the same. A handler that runs
-- without waiting is a function here, from the time and the state to the state; one that waits
-- for an answer is two functions, before and behind its `await`, and other handlers may run
-- between them.
--
-- - Base: Boolean tests, lists, dictionaries, whole numbers below zero (Base/Int), bits
--   (Base/Bits), and the doubles with the sort of arrays by a comparison (Base/Floats). Doubles
--   are a parameter wherever a theorem does not depend on them; days of stock in tenths and
--   scores in millionths are whole numbers.
-- - Auth: auth.js, with the fields of `S` that say which screen is shown. Throttle is `lockState`
--   and `recordFailure`; Verify is `verifyCredential` and the directory of operators; Sessions is
--   `grantSession`, `signedIn`, `endSession`, `touchSession` and `render` (views.js); Gate is
--   `requirePrivilege`, `submitStepUp` and the closure of `saveShelter` (actions.js); Router is
--   `submitSignIn`, `requestRole`, `enter`, the idle watch, `go` (views.js) and `czGo`
--   (citizen.js); Safety runs all of these as the steps of one relation. The key derivation and
--   the decoding of base64 are parameters, the answer of the login service is an argument.
-- - Ranking: `mergeSort`, `cmp`, `priorityKey` and `computePriorities` (data.js); the scores, in
--   Ranking/Score, are computed with fractions where the source has doubles, and Math.log1p and
--   Math.exp are parameters. The recursion of the sort runs on fuel, as much as there are
--   elements, which is enough since the halves of two elements or more are shorter: the theorems
--   about the sort's result show it.
-- - Shelters: `mkShelters` (data.js), `recomputeShelter` (boot.js) and `doSaveShelter`
--   (actions.js).
-- - Relocation: `computeRoutes` (data.js), on the zones of Ranking and the shelters of Shelters.
-- - Reports: `nextReportId`, `submitReport` (actions.js) and `log` (data.js). The search for an
--   id runs on as many rounds as there are reports, which pass over all the ids that are used.
-- - Feed: `buildNationalFeed`, `refreshNationalFeed`, `pushNational` and `nationalPeak`
--   (data.js).
-- - Sources: livedata.js as far as it says which source is asked when, how long its reading
--   counts, what the badge says, in Sources/Observed which risks of a state the observations
--   replace and by what, in Sources/Cells how they reach the cells, and in Sources/Applied
--   `applyObservations`, which runs both over the states.
-- - Assistant: rag.js, the retrieval of passages and, in Assistant/Answer, the answer that is
--   made of them; the tokens and the sentences of a text are arguments, and a double
--   is neither NaN nor infinite. `mmr` runs on as many rounds as passages are asked for.
-- - Camera: the camera of the map and the scope it shows. Camera.antt is the flights, the zoom and
--   the clamping (map.js, ui.js), Gestures the wheel, the pointers, the pinch and the keys (ui.js
--   `bindMapNav`), Scope the levels world, country and state (geo.js, map.js, citizen.js, views.js).
--   Limits, Page and Levels run them as the steps of relations.
-- - States: states.js, and `seedStates` and `loadState` of data.js. Profiles is the table of states,
--   Hash `zhash`, Season the factors of the clock, Cells the grid of a state, Alerts and Registers
--   what is built from it. Doubles are fractions (Base/Fractions), the distance of two points is a
--   parameter. Load is `loadState`, for any data of its first branch; Chamoli makes those of the
--   register of Chamoli.
-- - Memorial: memorial.js, the gallery of past events and the photographs that a reader adds; the
--   handlers of the photographs and the answers of the browser's store are the steps of one relation.
-- - TextSize: the text size of the page (ui.js).
-- - Connection: live.js, the socket's events as the steps of a relation.
-- - Slideshow: citizen.js, the slideshow of the public page, its handlers and its interval as the
--   steps of a relation; the browser's intervals are part of the state.
-- - Pipeline: boot.js, the drift of a cell, the loop of a second, and the events, in
--   Pipeline/Events those of shelters, reports, zones and states, in Pipeline/Warnings those of
--   roads, sources and official warnings.
--
-- Not modelled: markup, painting and text; the drawing of the map; the requests to
-- the live sources and the reading of their answers; the backend, which is another program.
pub mod Base
pub mod Assistant
pub mod Auth
pub mod Ranking
pub mod Shelters
pub mod Slideshow
pub mod Relocation
pub mod Reports
pub mod Feed
pub mod Sources
pub mod Camera
pub mod Connection
pub mod Memorial
pub mod Pipeline
pub mod States
pub mod TextSize
