-- ===== src/Lib.antt =====
-- A model of the Python services of the lending sample, samples/aa-flow-based-lending/src, and what
-- holds of them. Five services take part in a loan request:
--
-- * The financial information user (FIU, financial-information-user/src) starts a workflow: it asks the
--   clean room for a transaction id and key material, asks the account aggregator for a consent, then
--   for the financial information, and sends that to the clean room, where the business rule engine
--   scores it. FinancialUser models it: the module globals of controller.py are the record
--   `FinancialUser`, the JSON bodies are in FinancialUser/Messages, the handlers in
--   FinancialUser/Handlers and the routes of main.py in FinancialUser/Routes. FinancialUser/Reach is
--   about all states that it can reach.
-- * The account aggregator (AA, account-aggregator/src) keeps consents, signs their artifacts, and has
--   the information encrypted. Aggregator models it: the module globals are the record `Aggregator`,
--   with Aggregator/Messages, Aggregator/Consent and Aggregator/Session for controller.py, and
--   Aggregator/Routes for main.py. Aggregator/Invariant is about all states that it can reach.
--   Aggregator/Contract says what it promises of consents without its tables: a book from handles to
--   consents, with the kinds of steps of a book, and (Contract/Ledger) what each event is to do to the book
--   and to the tasks that wait to sign a consent.
-- * The business rule engine (BRE, business-rule-engine/src) has the statements aggregated and computes
--   a score: Scoring and Scoring/Service.
-- * The statement analysis (SA, statement-analysis/src) adds up the transactions of each day: Analysis.
--   Analysis/Spec says what it is to compute.
-- * The certificate registry (CR, certificate-registry/src) keeps the certificate of the AA: Registry.
--
-- All but the last two send requests with client.py, which is Client, with the copies of the services in
-- Aggregator/Client, FinancialUser/Client and Scoring/Client. They print with logger.py, which is
-- Logger. The `main` of each service, which puts its arguments into the globals, is in a module Main
-- below the service, and Startup is what they share. TestClient is the script
-- samples/aa-flow-based-lending/client.py, which sets the services up and starts a workflow. Generator is
-- the script samples/aa-flow-based-lending/generate_savings_transactions.py, which writes sample
-- statements; what it draws at random is an argument. A function of the source has a definition of its
-- name; where a long function is cut, the parts are named for what they do.
--
-- Workflow is about the services together. Its modules Consent, Encryption and Payload are about the
-- messages that one service makes for the next. In the others a service runs with the next one as its
-- peer (Workflow/Peers): Certificate has the AA and the CR, Scoring the BRE and the SA; Start, Notify and
-- Deliver have the FIU with the AA as its peer, at the start of a workflow, at the notification of the
-- consent and at that of the information, and Grant and Session have the AA with the FIU as its peer, in
-- the two tasks that send these notifications.
--
-- Interleaving has the AA and the FIU side by side, where each may wait for the other: a service is idle,
-- or busy with an event and with the answers that have come to it so far. What a busy service has done is
-- the run of its handler, as it is in the models above, on a host that gives these answers and stops at
-- the next request (Interleaving/Replay). Interleaving/Progress says where two such services can go on,
-- Interleaving/Services puts in the AA and the FIU, with the routing of requests and the answers that
-- FastAPI makes of results as parameters. The delay of three seconds is not measured: the steps are
-- free, or such that a handler that sends requests begins only while the other service is idle, which is
-- what the delay is for. Interleaving/Stops, Quiet and Simulation are the rules by which all handlers are
-- gone through, and Runs is about one service with a peer that answers at once, as a part of the two;
-- Interleaving/Turns, Hang, Consistent, Start, Grant, Consented and Notify are about the two services.
--
-- Python is modelled in Python: JSON values with types for them (Python/Schema), `==`, truth,
-- subscripts, dict keys, `int`, exceptions. A handler is an action (Host/Effects) on the module globals
-- and the world around the service, which returns or raises; what it wrote before an exception stays
-- written. The world is a parameter: `Host`
-- (Host.antt) is a record of what the services use and do not implement, that is `requests` with the
-- peers behind it, the clock, uuid4, the JSON and base64 codecs and the signing key. Of it, the theorems
-- on reachable states assume of uuid4 that the handle of a new consent is unused, and those on the book
-- that its id is too; the theorems in Workflow on two services assume that a peer is behind its URL,
-- that FastAPI serves it, and that the one reads the JSON that the other writes. Those in Interleaving
-- assume where they need it that no request between the two services goes to the setup route, and of
-- what FastAPI answers that it is a response 200 with the JSON. Else nothing is assumed of it.
--
-- The event loop runs one handler or task at a time, since `requests` blocks it, and the one wait, the
-- delay before an artifact is created, stands at the beginning of its task. So the AA and the FIU go
-- through events, each of them a request or the run of any task that waits, in any order. A loop of the
-- source is a recursion on the list that it goes through: no fuel is used and no bound is chosen.
-- Python's integers have no bound, and neither have those of the model.
--
-- Not modelled: the calls of the logger in the handlers and the measuring of latency; argparse, FastAPI
-- and uvicorn, among them the answer to a handler that raises; floating point numbers in JSON (an
-- amount is a whole number); `int` of a text with digits beyond ASCII; the clean room between the FIU
-- and the BRE (internal, cmd) and the crypto service. The theorems in Workflow are about a peer that is
-- idle when it is asked and answers at once; where it waits too, Interleaving is the model.
pub mod Prelude
pub mod Python
pub mod Host
pub mod Client
pub mod Startup
pub mod Logger
pub mod TestClient
pub mod Analysis
pub mod Scoring
pub mod Registry
pub mod Aggregator
pub mod FinancialUser
pub mod Generator
pub mod Interleaving
pub mod Workflow
pub mod Tests
