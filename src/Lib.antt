-- ===== src/Lib.antt =====
-- MeshCore BBS: a bulletin board that is reached by direct messages over a MeshCore radio mesh.
--
-- The program takes a message from the radio (src/bbs/transport), hands it to the dispatcher
-- (src/bbs/dispatcher.py), which parses it, checks rate limits and bans, calls a service
-- (src/bbs/services) on the database (src/bbs/db.py), and puts the reply, split into packets
-- (src/bbs/format.py), into a queue in the database, from which the outbound worker
-- (src/bbs/outbound.py) sends it, with retries and a gap between the sends to one recipient.
--
-- Prelude holds the shared tests, lists and tables; Text is Python's str as a list of code points,
-- with str.strip, str.split, str.lower and the like as the source uses them. What Python's Unicode
-- tables say beyond ASCII is a parameter, the record Unicode.
--
-- Models: src/bbs/models.py. Db and its children: src/bbs/db.py, a child for each section of the
-- file, each statement a function on lists of rows. A function that may raise returns a Result.
-- Format: src/bbs/format.py. RateLimiter: src/bbs/rate_limit.py. Names: src/bbs/names.py.
-- Commands: src/bbs/commands.py. Config: src/bbs/config.py, the settings that these parts read,
-- the check of the device and a reload, with what it does not reach. Transport: the types of
-- src/bbs/transport/base.py, Transport.Mock the class of mock.py beside it, and Transport.MeshCore
-- the radio of src/bbs/transport/meshcore.py: Keys and Paths for the reading of keys and paths,
-- Events for the handlers, Link for the sends, the check at the start and the supervisor.
-- Onboarding: src/bbs/onboarding.py. Services: boards.py, mail.py, admin.py, news.py and
-- weather.py of src/bbs/services. Dispatcher: src/bbs/dispatcher.py, with Dispatcher.Inbound for
-- handle_inbound and the choice of the handler, and Dispatcher.Simple, Posting, Mailing and Admins
-- for the handlers. OutboundWorker: the tick of src/bbs/outbound.py, and the events that change
-- the queue between the ticks, with OutboundWorker.Loop for _run and its sleeps. Health:
-- src/bbs/health.py and health_state.py. EventPump: _event_pump of src/bbs/__main__.py. Scheduler:
-- the jobs of src/bbs/scheduler.py. Dashboard: src/bbs/dashboard.py, a child for each page and
-- each group of actions. Program: the parts that run of src/bbs/__main__.py puts together, and a
-- run of them, which is any sequence of events of the radio, ticks, jobs and requests. The other
-- children of a module hold the proofs about it, and Tests the concrete runs.
--
-- Dispatcher.Closed is the interface between the operations of the database and a property of the
-- whole dispatcher: a record that says which operations keep a predicate, and the proof that the
-- dispatcher then keeps it. Dispatcher.Rights and Program.Kept fill it in.
--
-- State is passed explicitly: the dispatcher's state is the record Bbs, the worker's the record
-- Worker, the program's the record System. A handler returns the exception that it ends in, if
-- any, and what it did before stays done. The clock is an argument: one reading in whole seconds
-- serves the handling of one message, and each reading of a tick of the worker is an argument of
-- its own, in milliseconds. A difference of times is compared without a subtraction where the
-- clock might have been set back; the uptime is taken to be no less than 0. The loops are
-- structural, with two exceptions that take fuel: the digits of a number, which str gives as many
-- steps as the number is large, and the chunks of a path in hex, which get as many steps as the
-- text is long and advance by at least one character each. A text of more than 4300 digits, which
-- int refuses, does not fit into a message. In a run of the program (Program) each turn of a task
-- is taken as a whole, and no tick of the worker raises: what another task of asyncio does while a
-- handler waits is not interleaved, although it can be in the program, where move_outbound_to_back
-- and pause_outbound_recipient write back a number of attempts that they have read before an
-- await. OutboundWorker.Loop has ticks that raise, before and behind the send.
--
-- Not modelled: how asyncio schedules its tasks, aiohttp's routing and streams, the package
-- meshcore, HTTP and feedparser, SQL, the migrations and vacuum, YAML, logging and the scripts.
-- What the code relies on of them is an argument of the definition that uses it. The path that the
-- radio knows and the installed version are fields of the record Setting. Sending an advert is
-- taken to return. The final-sigma rule of str.lower is left out.

pub mod Prelude
pub mod Text
pub mod Models
pub mod Db
pub mod Format
pub mod RateLimiter
pub mod Names
pub mod Commands
pub mod Config
pub mod Transport
pub mod Onboarding
pub mod Services
pub mod Dispatcher
pub mod OutboundWorker
pub mod Health
pub mod EventPump
pub mod Scheduler
pub mod Dashboard
pub mod Program
pub mod Tests
