-- ===== src/Lib.antt =====
-- ShortQ: its dashboard, web/app.js and web/reports.js, with the server's cut of a listing into
-- pages, internal/store/store.go; and the way of a click through the server, from the redirect
-- handler and its cache over the click queue to the counters.
--
-- The dashboard is a page of five views (home, links, analytics, admin, settings). The fragment of
-- the address says which is shown: `routeView` chooses a view or a report by the fragment and the
-- signed-in user, shows it, and has `loadWorkspaceView` call the view's loaders once. A loader
-- asks the server by `api` and writes a panel by template strings, whose texts pass through `esc`.
-- Four listings come page by page, by a cursor and a history of cursors.
--
-- - Prelude: shared names; Boolean tests, texts as lists of code units, decimal digits.
-- - Html: `esc` and template strings, as lists of pieces. Html/Markup reads a text as tags with
--   double-quoted attributes and says which part of it is markup; Html/Decode is what a browser
--   reads back of escaped text.
-- - State: the variables of the scripts, the parts of the page that they read and write, and the
--   server's data, State/ReportData that of a report, State/LinkForm what the form of a link sends.
--   State/Platform: numbers with a fraction and the calendar, as the browser has them.
--   State/Monad: a handler as a function of the environment and the state that returns or throws.
-- - Api: `api` and `showMsg`.
-- - Pager: the listings' `reset…Pagination`, `next…Page` and `previous…Page`. Pager/Server is
--   `ListLinksPage` of the server, over the identifiers of the rows that the user may see;
--   Pager/Walk puts the two together, Pager/Race presses Next without waiting.
-- - Views: the rows and panels, Views/Links those of links and clicks and Views/Admin the others.
--   Views/Safety compares a panel with the one whose texts are all blank: a panel is confined
--   if both have the same tags and attributes and the page behind it is read as content.
-- - Workspace: the loaders, Workspace/Admin those of the admin panes, Workspace/Paging the
--   handlers of the listings' buttons and filters, Workspace/Load `loadWorkspaceView`.
--   Workspace/Runtime `loadRuntimeInfo`. Workspace/Keeps, Workspace/Frame and its kind say what a
--   loader leaves alone.
-- - Report: `setReportPreset`, `loadCurrentReport` and `downloadReport`; Report/Dates
--   `localDateValue` and `reportQuery`, Report/Charts and Report/Lines the cards and charts,
--   Report/Render `renderReport`. Report/Safety compares its panels with the blank ones,
--   Report/Period is the period asked for, Report/Bounds the scale of the charts.
-- - Router: Router/Target is the choice that `routeView` makes, Router/Show the whole of it with the
--   listener of `hashchange`, and Router/Reports the functions that change the address.
-- - Session: `restoreSession`, `showDash`, `renderDashboard` and `setDashboardMode`.
--   Session/Leave has the handlers that leave for the sign-in.
-- - Links: the forms of a link. Links/Tags and Links/FormPayload are `linkPayloadFromForm`,
--   Links/Edit `editLink`, Links/Save `saveLink` and `createLink`, Links/Upload `importLinks`.
--   Links/Editor says what the form has that `editLink` fills, Links/RoundTrip submits it, and
--   Links/Outcome and Links/Import say what the handlers leave.
-- - Qr: the QR card and `toggleTargetURL`.
-- - Operations: `confirmAction`, `delLink`, `delKey`, `delDomain`, `setDeletionAccess` and
--   `verifyDomain`; how the user closes a dialogue is a parameter.
--   Operations/Create has the handlers of the forms of the admin panes and of the settings.
-- - Clicks: internal/store/store.go, `RecordClick` and `RecordClicks` over the tables that a click
--   touches, Clicks/Event the event of internal/models/models.go. Clicks/Ledger and Clicks/Calls set
--   the counters against the rows, Clicks/Keeps has the induction that they share, Clicks/Again writes a batch twice, Clicks/Poison has a batch that
--   fails, Clicks/Count the number that is returned, Clicks/Single one new event.
-- - Queue: internal/clickqueue. Queue/Decode is `DecodeEvent`, Queue/Recorder `Recorder.Record` and
--   `MarshalEvent`, Queue/Delivery what the worker is given, with `NewWorker`, and Queue/Worker `Run`
--   with `flush` and `retryBatch`, on the store of Clicks. Queue/Steps and Queue/Names are lemmas on
--   these, Queue/Loss is on acknowledged events, Queue/Bounds on the batch and the timer,
--   Queue/Account on the counters, Queue/Retries on the way through the retry queue, and Queue/Once
--   on a click from the recorder to its link.
-- - Redirect: internal/redirectcache/cache.go, `FromLink`, `Link`, `Resolve` and `Invalidate`.
--   Redirect/Serve is `redirectSlug` of internal/handlers/handlers.go from the load of the link on.
--   Redirect/Coherent and Redirect/Invalidate set the entries against the table, Redirect/Served
--   the answers through the cache against those from the table. Redirect/Attempts is the limit of
--   `passwordGate` on attempts, each post of a password one step, and Redirect/Guesses counts them.
-- - Tests: runs and the theorems at concrete inputs.
--
-- The record `Env` stands for what is not in the repository: the server, whose answer to a request
-- may depend on all requests before it; the browser's date format, `JSON.stringify` and
-- `URLSearchParams`; arithmetic on numbers with a fraction and the texts of numbers; and the
-- calendar, whose days are numbered from one in the far past; `new Date(t).toISOString()`,
-- `JSON.parse`, and what a control of a form keeps of a text. Theorems hold for every such record;
-- those on panels with dates ask that the date format writes no `<`, those on the charts that the
-- texts of numbers hold neither `<` nor `"`, and that on the editor of a link that its controls keep
-- the link's values and that texts of numbers and JSON are read back.
-- Identifiers and counters are natural numbers. A text is a list of code units; an absent JSON
-- text reads as the empty one, as `||` does in the source. A body is of one of the shapes that the
-- endpoints answer with; a body of another endpoint's shape has no items and names no user.
--
-- The server's parts are apart from this record. A transaction is one step: it takes effect, or it
-- fails, or it takes effect and its answer is lost. A call of the broker or of the cache fails or
-- not, as a parameter says. Times are in seconds, an `int64` is a natural number below 2^64 with the
-- same bits where the source compares or wraps it, and ids of links are natural numbers. The
-- worker's loop is a list of what comes, so it needs no fuel; the rounds of a delivery through
-- the retry queue have as many as the limit on retries, which the theorem on them shows is enough.
--
-- `Resolve` is one step, but for the last theorem of Redirect/Invalidate.
--
-- A handler of the dashboard runs to its end before the next one starts, and `Promise.all` runs its
-- calls one after the other; the one exception is Pager/Race. The loops are recursion on lists. The
-- one fuel of the dashboard is that of `show_ℕ`, the decimal digits of a number, which is run with one more than the number;
-- `value-show_ℕ` reads the number back, so it is enough.
--
-- Not modelled: the scrolling to the QR card; the third-party Swagger UI of web/docs-assets; and
-- the rest of the server, of which the dashboard sees the answers alone. Of the redirect, the
-- choice of the tenant's domain, `mergeTargetQuery` and `redirectEvent`, which call net/url, are
-- parameters, and the page and the cookie of the password gate are left out. RabbitMQ, Redis and
-- the JSON decoder are parameters; the expiry of a cached entry, the logs and the measured times
-- are left out, and so is the panic of `Retry` on a negative header.
pub mod Prelude
pub mod Html
pub mod State
pub mod Pager
pub mod Views
pub mod Api
pub mod Workspace
pub mod Report
pub mod Router
pub mod Session
pub mod Clicks
pub mod Operations
pub mod Links
pub mod Qr
pub mod Queue
pub mod Redirect
pub mod Tests
