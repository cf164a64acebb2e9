-- ===== src/Lib.antt =====
-- A verification library of the Cisco ISE MCP server: its configuration, the checks of its arguments
-- and of what may be called, its redaction, its sessions, its OAuth codes, its client of the ISE
-- REST interfaces and its tools, with the theorems that make them correct.
--
-- The parts and how they interact. A tool call (`Tools.run`) passes the gates of the configuration
-- (`Validation.Gate`), finds the caller's identity through the provider (`Auth.Provider`, on top of
-- `Auth.Store`), runs the tool's own code, which checks its arguments (`Validation`) and asks ISE
-- (`Ise.Ers` and `Ise.Mnt`, both through `Ise.Client`), and answers with a redacted envelope
-- (`Responses`, `Redaction`) while it writes the audit log (`Audit`). `Oauth` issues codes for logins
-- and redeems them for the id of a session. In front stands the HTTP server (`Server`), which lets only
-- callers with a session or an API key through to the tools. `System` is the running server: the worlds
-- that it reaches by serving requests.
--
--   Prelude, Text, Dict, Value    Booleans, integers, texts, dicts and JSON values as Python has them
--   Config                        src/cisco_ise_mcp/config.py: Config, load_config, Config.validate
--   Errors                        src/cisco_ise_mcp/ise/errors.py
--   Validation                    src/cisco_ise_mcp/validation.py: Mac, Ip, Names, Gate
--   Redaction, Responses, Audit   src/cisco_ise_mcp/redaction.py, responses.py, audit.py
--   Auth                          src/cisco_ise_mcp/auth/: Context (base.py), Session and Store
--                                 (session_store.py), Provider (passthrough.py, service_account.py)
--   World, Exec                   the state, the surroundings, and code with effects
--   Ise                           src/cisco_ise_mcp/ise/: Client, Ers, Mnt, Models
--   Oauth                         src/cisco_ise_mcp/oauth.py: OAuthServer and its codes
--   Tools                         src/cisco_ise_mcp/tools/: the frame (__init__.py) and every tool; Calls
--                                 is `register_all`, one constructor for each tool
--   Server                        src/cisco_ise_mcp/server.py: Gate, Token, Authorize, Discovery, Build
--                                 (build, build_http_app, main); and the web page and the redirection of
--                                 oauth.py: Page, Redirect
--   System                        the running server of server.py, a step relation on its world
--   Logging                       src/cisco_ise_mcp/logging_config.py
--   Examples                      runs on concrete data
--
-- How the code is modelled. A text is a list of code points, a dict an association list with distinct
-- keys in the order of insertion, a JSON document a `Value`. A call that may raise returns a
-- `Result`; code with effects is an `Exec`, a function of the surroundings `Env` and the state
-- `World` that returns a result and a new state, so that what was done before a raise stays done.
-- `Env` is what the program does not implement: the clock (in microseconds), the random tokens, the
-- replies of ISE to each request given those before it, `float`, base64, SHA-256, the XML parser, and
-- the headers of the request that is served. `World` holds the sessions, the authorization codes, how
-- often the clock and the tokens were read, the requests sent, the pauses made and the audit log. The
-- methods of the store and of the codes hold a lock, so that concurrent calls are the sequences of
-- calls, in any order: see `Auth.Store.History`, `Auth.Store.Granted` and `Oauth.SingleUse`.
--
-- What code with effects leaves behind is proved once for many purposes: an `Effect` (`Exec.Effects`) is a
-- relation between the worlds before and after it, and `Keeps` says that a piece of code keeps every
-- relation with given laws. `Tools.Effects`, `Tools.Calls.Kinds` and `Server.Effects` show it of every
-- tool and endpoint, and the theorems on runs (`System.Runs`, `System.Codes`, `System.ReadOnly`) give it
-- relations of their own. A run of `System` serves one request after the other, each to its end.
--
-- Loops. The `while True` of the client is a loop on fuel (`Ise.Client.Loop`), which needs at most four
-- rounds; the other proofs use a loop that counts its retries down from `max_retries`, 3, to which it is
-- equal. The probes of a login are counted down from 4. Everything else is recursion on the data.
--
-- Not modelled: the MCP SDK, Starlette, httpx and uvicorn, which are parameters (how the SDK answers a tool
-- call, and the application behind the gate) or events (which endpoint a request reaches); the
-- interleaving of two requests that both wait for ISE, other than in the histories of the store and of
-- the codes; the log lines other than the audit log and the layout of a line as JSON text; the self-check
-- `demo` of oauth.py; headers that are no UTF-8, of which the gate raises, case mapping outside ASCII, the
-- escapes of `repr` for characters that are not printable outside ASCII, URLs that urllib.parse refuses,
-- exceptions of httpx other than TransportError, the limit that `int` sets to the digits of a number, NaN
-- and infinities.
mod Prelude
pub mod Text
pub mod Dict
pub mod Value
pub mod Errors
pub mod Redaction
pub mod Responses
pub mod Audit
pub mod Config
pub mod Validation
pub mod Auth
pub mod World
pub mod Exec
pub mod Ise
pub mod Oauth
pub mod Tools
pub mod Server
pub mod System
pub mod Logging
pub mod Examples
