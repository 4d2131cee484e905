-- ===== src/Lib.antt =====
-- Mindwall: a mail proxy that analyses what arrives, quarantines what is dangerous, and shows the
-- rest to a mail client over IMAP; and that takes what the client sends over SMTP.
--
-- Parts and files:
--   app/quarantine/service.py and app/audit/service.py: Quarantine and Audit, over the tables of
--   Models/Session (the rows as the transaction sees them, and as the last commit left them). A
--   service function is a function of the session, of the clock and of the ids that the database
--   gives to new rows. Quarantine/Trail has the runs of the program as a step relation.
--   app/policies/verdict.py: Policies/Verdicts, over the floats of Models/Numbers.
--   app/proxies/imap/session.py, mailbox.py and server.py: Imap/Auth, Imap/Folders, and Imap/Args,
--   Imap/Sets, Imap/Fetch and Imap/Server. A connection is the record `Conn`; each `_cmd_*` method is
--   the function `cmd_*`, `_dispatch` is `dispatch`, and `handle` runs the loop over what the client
--   sends. Each line comes with the tables as they are when it is run.
--   app/proxies/smtp/server.py, session.py and delivery.py: Smtp/Lines, Smtp/Commands, Smtp/Server and
--   Smtp/Delivery. The handlers of AUTH and DATA take the lines that they read from the input.
--   app/mailboxes/sync_service.py: Sync. A run is `sync_mailbox_folder`, from the tables of states and
--   items to the summary and the tables after it.
--   app/alerts/service.py: Alerts, over the session of Models/Session.
--   app/policies/service.py: Policies/Settings, its registry of settings in Policies/Settings/Rows.
--   app/analysis/service.py: Analysis/Service, with app/analysis/deterministic.py in Analysis/Checks,
--   Analysis/Urls, Analysis/Content and Analysis/Scores, app/analysis/prompt.py in Analysis/Prompt and
--   Analysis/Response, and the part that asks the LLM in Analysis/Llm. A run is `run_analysis`: what it
--   finds out is `assess`, and what it writes are `save_run` and `auto_quarantine`.
--   app/mailboxes/service.py: Mailboxes/Profiles and Mailboxes/Connectivity, each operation from the
--   table of profiles to its result and the table after it.
--   app/mailboxes/view_service.py: Mailboxes/Views.
--   app/messages/html_safe.py: Messages/HtmlSafe, from the calls of the HTML parser on, and
--   app/messages/urls.py: Messages/Urls.
--   Models has the enumerations and the columns of the tables, Wire the texts of the two protocols
--   (code points, ASCII case and white space, decimal numbers), Prelude the shared names and lemmas,
--   Examples the theorems at concrete inputs.
--
-- The proxies call the policy of what to show through the tables only: the sync writes the items that
-- `select_mailbox` reads. The SMTP proxy logs in through the IMAP proxy's function, against the rows
-- that Mailboxes/Profiles writes. A run of the analysis computes its verdict with Policies/Verdicts and
-- files what is to be held with Quarantine.
--
-- Bounds and fuel: `serve` of Smtp/Server runs on the number of lines and one more, since each round
-- reads a line; `split_loop` of Imap/Args on the length of the text, since each round takes a character;
-- `show_fuel` of Wire/Numerals on the number, since each round divides by ten. The remainder by 2 ^ 31
-- of UIDVALIDITY is written out. Numbers of Python are unbounded.
--
-- Parameters: bcrypt, Fernet, random tokens, base64, UTF-8, repr, JSON, SHA-256, the regular
-- expressions, urlparse, the HTML parser, the order of a set, lower() and the numbers of a text, the
-- operations of floats, the ids of new rows, the message store, the outbound store, the relay, the
-- upstream server, the probes of a connection, the client of the LLM, and, for the sync, the ingestion
-- and analysis of a message and the exceptions that its loop does not name. Where a theorem relies on one of them, a hypothesis says on what.
--
-- Not modelled: sockets, HTTP routes and templates, the upstream IMAP client, the SMTP relay, the probes
-- of a connection and the HTTP client of the LLM, which are I/O; the MIME parser, the store of messages,
-- the accounts and the wrappers of cryptography, which call libraries; configuration, logging, workers
-- and scripts.
pub mod Prelude
pub mod Models
pub mod Audit
pub mod Quarantine
pub mod Policies
pub mod Analysis
pub mod Wire
pub mod Imap
pub mod Smtp
pub mod Examples
pub mod Sync
pub mod Mailboxes
pub mod Messages
pub mod Alerts
