-- ===== src/Lib.antt =====
-- A model of the web site of go-mcp-server, a server of MCP tools: frontend/src. The site is the
-- documentation of the server, generated from one table of content, and a dashboard on which a user
-- makes and revokes the API keys of the server.
--
-- How the parts interact. frontend/src/lib/docs.tsx holds the servers, the navigation and the pages;
-- the page route, the search dialog, the table of contents and the connection cards read it, and all
-- addresses in it are joined from the base URL of frontend/src/lib/mcp.ts. The dashboard
-- (frontend/src/app/doc/keys) calls the handlers under frontend/src/app/api/keys, which send the
-- call on to the Go server with the user's token; frontend/src/proxy.ts stands before both.
--
-- The files:
--   Base             lists, texts and tests that the others share
--   Mcp              frontend/src/lib/mcp.ts: `mcp_base_url` is MCP_BASE_URL of the environment's
--                    value, `mcp_url` is mcpUrl
--   Uri, Json        encodeURIComponent, JSON.stringify and JSON.parse, as far as the site uses them.
--                    Json.Read reads a text character by character, with the arrays and objects
--                    around a value as its stack
--   Docs             frontend/src/lib/docs.tsx and the components that read it: Types, Servers, Nav,
--                    Config (the client configurations), Pages, Markdown (pageMarkdown), Toc (tocOf
--                    and components/docs/toc.tsx), Search (search-command.tsx; Dialog is its state), Connect
--                    (connect.tsx; Connect.Configs has the texts in JSON), Page
--                    (app/doc/[slug]/page.tsx), Links (the addresses that the site serves and the
--                    links it shows), Highlight (sidebar.tsx, top-nav.tsx),
--                    Skill (lib/stateful-skill.ts, skill-download.tsx and its route), CopyButton
--                    (the five copy buttons of the site, with their timers), ServerPages (what
--                    the table of servers makes true of its pages)
--   Keys             frontend/src/lib/api-keys.ts (`keys_proxy`) and the three handlers; Keys.Laws
--                    has their properties, Keys.Gate is frontend/src/proxy.ts, Keys.Listing is
--                    listKeys and the page of the dashboard, app/doc/keys/page.tsx, and
--                    Keys.StoredLabel is the label that the server stores for a posted body
--   Dashboard        app/doc/keys/_components/api-keys-manager.tsx: `State` is the component's state
--                    and the requests it awaits, `step` what an event does, `run` a list of events.
--                    `begin_create` and `end_create` are handleCreate before and after its fetch,
--                    and so for handleDelete. Cap, Flight, Ids, Secret and Labels have what every
--                    run keeps, by the induction in Runs. Screen is the tree that the component
--                    renders in a state, with the events that its controls cause (Offers). Server puts the
--                    dashboard beside the user's rows in the server (internal/keysapi/keys.go): `Move`
--                    is a step of the two with the answers under way, `Reach` a sequence of them,
--                    `Turns` one without the user; Agreement, Settling and Turns have the theorems
--                    and View, Held and Steady what they rest on
--   Clerk            internal/clerkauth/clerkauth.go: `require_user` is RequireUser with its cache of
--                    signing keys, and Clerk's SDK an argument. Cached compares it with a check
--                    without the cache, and Forwarded gives it the requests of Keys
--   KeyStore         internal/keysapi/keys.go over the table of all users: `handle` is a call to one
--                    of the three handlers, `run` a list of calls. Isolation, Cap, Order and
--                    Refinement have its properties
--   View             what the site's pages render, as trees: Blocks (components/docs/blocks.tsx,
--                    code-block.tsx, connect.tsx, api-key-callout.tsx, tool-list.tsx,
--                    skill-download.tsx), Diagrams (architecture-diagram.tsx), Articles
--                    (app/doc/[slug]/page.tsx, coming-soon.tsx, toc.tsx, copy-page-button.tsx), Bars
--                    (app/doc/layout.tsx, sidebar.tsx, top-nav.tsx, theme-toggle.tsx,
--                    search-command.tsx, marketing/landing-nav.tsx), Home (app/page.tsx),
--                    Forms (the pages under app/(auth)), Site (lib/site.ts). Ids and Links have
--                    the properties of the trees
--   Auth             internal/auth/apikey.go: the resolver that admits a key on the server, with its
--                    cache, as rows are minted and revoked
--   Tests            tests, and the theorems at concrete inputs
--
-- Content is translated in full: texts, servers, tools and parameters are those of the source. Of a
-- React element its tag, its children, its `id` and `href` and the texts that it is given are kept,
-- and of a class name that depends on a state the test; other class names, ARIA attributes and icons'
-- drawings are not. White space between two texts of JSX is a text where React keeps it. Texts are
-- sequences of Unicode scalar values; a length that the browser counts in UTF-16 units is counted so.
--
-- What is outside the repository is an argument: the Go server is a state and what a `fetch` gives
-- in it, Clerk's route matcher and its `protect` are functions with what their documentation says as
-- hypotheses, what `res.json()` reads of a body is a function or part of the answer, and the answers
-- that the dashboard gets are events. Clerk's SDK in Go, Postgres' ids and times, uuid.Parse, Go's
-- JSON decoder, shiki and the clock's texts are arguments. No recursion here needs fuel but the
-- printing of a number's digits, which has the number itself plus one.
--
-- The reader of JSON knows natural numbers only, and no `\u` escape of a surrogate: the site writes
-- neither. Calls to the key API come one after another; that two INSERTs run at once is not modelled.
--
-- Not modelled: the copy of shadcn/ui under components/ui, the root layout and the providers, which
-- only connect; the Go sources, but for the key API, the resolver of keys and the check of Clerk
-- sessions, whose keys do not change here. An answer that is lost after its request was handled is no
-- step: the dashboard shows the rows again when the page is loaded.
pub mod Base
pub mod Auth
pub mod Clerk
pub mod Dashboard
pub mod Docs
pub mod Json
pub mod KeyStore
pub mod Keys
pub mod Mcp
pub mod Uri
pub mod View
pub mod Tests
