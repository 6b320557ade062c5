-- ===== src/Lib.antt =====
-- Models and theorems for the SMTP server of this repository and its monitor client.
--
-- The program. src/main.c listens for SMTP clients and for UDP datagrams of the monitor, and runs
-- the loop of src/lib/selector.c, which calls the handlers of a descriptor when it is ready. A
-- client's bytes go into the ring of src/lib/buffer.c; src/lib/smtp.c lets one of three parsers
-- (src/lib/request.c for commands, src/lib/request_data.c for messages, src/lib/request_admin.c for
-- the administrator) consume them, and hands each command to the handlers of src/lib/process.c,
-- which write the reply and give the next state. The administrator's commands read the registry of
-- src/lib/access_registry.c. src/lib/monitor.c counts and answers monitor_client/client_monitor.c.
--
-- The files.
--   Prelude  shared names: C arrays as lists with `get_elem?`, `get_or`, `set`, `filled`; `Option` as
--            the value or a fault, with `store` for a checked write; signed results; tests on
--            numbers.
--   CString  what the code uses of <string.h>, <strings.h> and <ctype.h>.
--   Buffer   src/lib/buffer.c. A buffer is its memory and the offsets of its two pointers; `contents`
--            is the bytes between them, the queue that a buffer stands for.
--   Request  src/lib/request.c (Line), src/lib/request_data.c (Body), src/lib/request_admin.c (Admin).
--            A parser is its state, its counter and the arrays it fills; `feed` is one byte.
--   Process  src/lib/process.c: a handler takes a `Turn` (the session and the reply so far) to the turn
--            after it and the next state. Replies holds the texts, Anytime the commands of every
--            state, Mail the commands of a mail, Admin the administrator's, over an interface
--            `Directory` for the functions of the registry.
--   Smtp     request_process of src/lib/smtp.c, which chooses the handler and queues the reply; Password
--            puts the registry behind the administrator's commands.
--   Registry src/lib/access_registry.c: mails by registration and by time, users, dates (Date), the
--            listings (Print), and the mails it starts with (Mock).
--   Stm      src/lib/stm.c: the engine of state machines, over what a key gives its callbacks.
--   Selector src/lib/selector.c: the table of descriptors and its operations, the rounds of
--            selector_select over what pselect gives (Iteration), which Rounds follows from place to
--            place, the calls of handlers that leave the table (Calls), and its end (Destroy).
--   Socket   src/lib/smtp.c: the handlers of a client's socket, Read, Write and File (the file that a
--            message is written to), the table of states and the selector's handlers (Machine), the
--            acceptance (Accept). A `World` is what a key leads to, with what the system calls answer
--            in the event. Waits says what is waited for in each state and follows it through the
--            handlers; Run has the events of a client's socket one after another; Unused holds the two
--            reading handlers that no table names.
--   Parser   src/lib/parser.c, parsers that are tables of transitions, and the machine of
--            src/lib/parser_utils.c that compares strings (Strcmpi).
--   Hello    src/lib/hello.c: the parser of a SOCKS5 greeting, which only the tests run.
--   Args     src/lib/args.c: the command line, over what getopt and strtol give.
--   Netutils src/lib/netutils.c: the copies between sockets that block, and the printing of an
--            address (Human).
--   Monitor  src/lib/monitor.c, and the requests and the reading of replies of
--            monitor_client/client_monitor.c (Client), and its main over what the network answers
--            (Exchange, Shown); Wire has numbers as bytes.
--   Logger   src/lib/logger.c and the macro logf: the buffer that lines wait in (Room), what leaves it
--            for the file (Flush), a line that is printed (Print, Line, Order), the events one after
--            another (Run), logger_init and logger_finalize (Setup, Ends).
--   Maildir  src/lib/maildir.c over an interface for the file system: the directories (Dirs), the names
--            of files (Names), what a recipient gets (Delivery).
--   Main     src/main.c: the arguments (Arguments), the set up over what its calls answer, the
--            log (Logs), the table with which the loop begins (Table), the loop and the end (Serving,
--            Status).
--
-- Conventions. Bytes are numbers below 256; counters of w bits are taken modulo 2 ^ w where they can
-- wrap; a char is signed. A failed assert, a write outside an array and a read of an array that was
-- never set are faults, `none`: the model stops where the program's behaviour is undefined. System calls and the
-- functions of the C library that the model does not hold (localtime, mktime, sscanf, the printing of
-- a number, the success of an allocation) are parameters.
--
-- Fuel. The loops that consume a buffer are given one round more than it holds bytes, and each round
-- takes a byte or stops, so that they end by themselves; so do the copies of
-- netutils.c. The loop of next_capacity is given 64
-- rounds, the width of a size_t.
--
-- Not modelled: the threads, signals and timeouts of the selector; the freeing of memory, since memory
-- is given; the SOCKS5 handlers (src/socks5nio.c), which are not built; and the tests. The files of
-- mails stand in an event's answers in Socket, apart from the model of them in Maildir.
pub mod Prelude
pub mod CString
pub mod Buffer
pub mod Request
pub mod Process
pub mod Smtp
pub mod Monitor
pub mod Selector
pub mod Stm
pub mod Socket
pub mod Registry
pub mod Parser
pub mod Netutils
pub mod Hello
pub mod Args
pub mod Logger
pub mod Maildir
pub mod Main
