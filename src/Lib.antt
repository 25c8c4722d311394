-- ===== src/Lib.antt =====
-- js-ng, a framework for automation and configuration (jumpscale/): the parts that keep data.
--
-- core/base: Base.
--   Base.Value has the values of Python that a field can hold, Base.Field the field classes of
--   fields.py (Data: the classes with their options; Patterns: their regular expressions; Scalar:
--   validate and from_raw of the classes that hold no other field; Nested: all classes, with the
--   methods of meta.py that Object fields call). Base.Instance is get_field_property of meta.py and
--   Base.Meta its metaclass, which gathers the fields of a class and its bases (Inherited).
--   Base.Store.Config is EncryptedConfigStore of store.py, Base.Store.RoundTrip an instance on its way
--   to the store and back (Chain, Storable and AsIs carry the proof). Base.Factory is Factory of
--   factory.py, and Base.Factory.Stored is StoredFactory over what the store holds at its location;
--   the names that the store lists, in whatever order, are an argument of loading (Listing, Reload). A
--   call that raises is an err of Prelude.Result; the state after an exception that leaves a call is
--   not followed. Objects of arrow, of urllib and of ipaddress, and floats, are numbers of which only
--   the library record of Base.Field.Data knows more; NaCl with base64 around it, and JSON, are the
--   vault record of Base.Store.Config. Embedded objects are of their field's class, not of a subclass.
--
--   Base.Store.Location is Location of store.py and what the two stores promise: what replaying the
--   operations gives. Base.Store.Files is FileSystemStore: a path is the list of its parts from the
--   root, os.path.join follows the parts of a name (dots, slashes in front), links are not followed,
--   and a directory is there when a file is below it. Base.Store.Redis is RedisStore: what a pattern
--   of redis matches is a parameter, of which Redis.Laws asks what is documented for a text without
--   special characters before a star; deleting takes at least one key. Base.Store.SameListing compares
--   what the two stores list.
--
-- data/treemanager/treemanager.py: TreeManager.
--   TreeNode and Tree. A node's parent is its place in the tree, so that a node is given by its path
--   from the root, and for get_path by the nodes that are its parents; an operation returns what the
--   method returns and the tree afterwards (Laws, Paths and Search carry the proofs). Dotted paths are
--   split by Text.split.
--
-- tools/alerthandler/alerthandler.py: Alerts.
--   AlertsHandler over the three keys it has in redis: two dicts and a counter. The digest md5 of
--   data/hash is a parameter, the clock is the time of a raise, and an id of 0 stands for None. The data
--   and the event of an alert, and all of a traceback but its process, are not kept. Alerts.Find is
--   find, Alerts.Laws is about raising and deleting, over databases that are in order
--   (Orderly), Tracebacks about raising again and again, and Reachable about those that any calls lead to.
--
-- core/config/config.py: Config.
--   The migration of a configuration to the defaults (Laws), and Environment, which gets the private
--   key (Key) and the settings of the stores. The file and its TOML syntax are left to pytoml, and the
--   files of a key that is generated are not followed.
--
-- core/logging/logging.py: Logging.
--   RedisLogHandler for the records of one application: the list and the counter in redis, and the
--   files of full pages. JSON and msgpack are left out: a record is kept as it is. The quotient of
--   identifiers is that of numbers, which for the code's floats holds below 2 ** 52. Pages is the
--   arithmetic of pages, Kept where the records are, Read what reading by an identifier gives.
--
-- core/events/__init__.py: Events.
--   Registration of listeners and notification; classes of events and handlers are numbers. What a
--   handler does is a parameter of notify. A handler that registers others during a notification is not
--   followed.
--
-- sals/hostsfile/__init__.py: Hosts.
--   HostsFile as a dict, and the text that is read, with the line ends that open() translates, and
--   written.
--
-- data/encryption/mnemonic.py: Mnemonic.
--   Keys as words and back, with the digest of hashlib as a parameter; random keys are not modelled. The
--   binary search of _word_index takes the length of the list for its fuel, which is never used up,
--   since each turn makes the interval shorter (Index); the bytes of a key take the number of digits.
--   RoundTrip puts the words (Words) and their digits (Bits) together.
--
-- data/bcdb: Bcdb.
--   One model of a database (bcdb.py, clients.py, models/base.py): its objects and the counter of ids, the
--   index from a property and its value to an id, and the table of ranges. JSON is left out, values are
--   numbers and texts, and what a type makes of a value is a parameter of its property. Database has the
--   queries, creating and saving; Reload, Indexed and Unique are about them. Objects that hold objects,
--   the registration of models and the index of texts, which sonic keeps, are not modelled.
--
-- tools/startupcmd/startupcmd.py: Startup.
--   How a command's processes are found and ended, the loop that waits for them (Wait), and stop and
--   start (Calls, Running). What sals/process asks the system is the record System; the clock, what
--   happens in the sleeps of the loop, commands, files and the window of tmux are the record Host. The
--   loop takes fuel, and more than the turns until the clock reaches the end is enough.
--
-- data/types/types.py: Types.
--   The types of a schema's properties on the texts that they check and read, and get_js_type. The floats
--   of Python, ast.literal_eval and the repr of lists are the record Python. Laws is about reading what a
--   check accepts; Patterns has the types whose check is a regular expression. Their digits are those of
--   ASCII. The check of IPAddress stands in Nettools.
--
-- data/schema/schema.py: Schema.
--   Normalize is the loop over the text (Idempotent), Line is a line with its regular expression written
--   out: no part of it has to give back what it has taken, but for a & that no
--   name follows. Parse is parse_schema. Matched is about
--   the groups of a line that is written, RoundTrip about its property and Whole about the text of a
--   schema.
--
-- servers/gedis: Gedis.
--   ResponseEncoder of server.py, the system actor of systemactor.py and the loop of one connection
--   (Server). The requests are as the parser of redis gives them, the socket is the bytes that were sent;
--   the actors that can be loaded, and JSON, are the record Modules, and what the methods of an actor do
--   is its state passed on. Resp is the protocol as a client reads it, written for this library; Lines,
--   Sent and RoundTrip compare the two, Serving and OwnActor are about a connection.
--
-- sals/fs and tools/syncer: Fs and Syncer.
--   Fs is walking over directories; what pathlib and os answer is the record Disk. Syncer is what a syncer
--   sends to its clients, in order: a list of commands with the client of each. Rewrite is about the place
--   of a path at its destination, Synced about sync. What was sent before an exception is not followed. The
--   observer, the loop of start and the answers of the clients are not modelled, nor are the functions of
--   fs that only call pathlib, os or shutil.
--
-- sals/process/__init__.py: Process.
--   Processes in what ps prints and by the port that they listen on, ending them, and check_start and
--   check_stop (Laws). What psutil says, what commands print and do, and signals are the record Machine;
--   its state after an exception is not followed. Startup takes what it asks of this module as a parameter,
--   since it asks for get_pids and for processes as psutil has them, which are not modelled.
--
-- sals/nettools/__init__.py: Nettools.
--   The loops that wait for a connection and for a ping (Waiting), the types of interfaces on Linux and
--   what is looked up in the network info. Each turn's clock and answer, and
--   ipaddress.IPv4Address, are parameters; the loops take
--   fuel. Reading the output of ip, macOS, downloads and the calls of socket are not modelled.
--
-- tools/git/__init__.py: Git.
--   Urls that are rewritten and parsed (Urls), the place of a repository, and the directories and commands
--   of cloning and pulling. urlparse, the directory of the code and the disk (Fs) are parameters; urls are
--   on one line. What a command does is not followed, and find_git_path is not modelled.
--
-- servers/openresty/server.py, location.py: Openresty.
--   Websites by their ports, over the stored factory and the setters of Base (Ports), and what the
--   configure methods of servers, websites and locations do and write (Configure, Twice). The texts that
--   the templates give are the record Rendering. install and reload are not modelled.
--
-- Not modelled, since it is input and output or calls of other libraries: the clients, the shell,
-- most of sals and tools. core/executors is not modelled either.
-- Loops that take fuel are those of Startup and Nettools, that of Mnemonic, the reader of
-- Gedis.Resp, whose fuel is the number of the values in the reply (size in RoundTrip), and the digits
-- of a number and the characters of bytes (Text.Decimal, Text.Utf8), which take the number and the
-- bytes for it; the others are recursion on what they run over.
--
-- Prelude has the lists, dicts, numbers and results that all parts use, Text what they use of Python's
-- texts and regular expressions, and Tests the theorems at concrete inputs.
-- Texts are sequences of code points. str.lower and str.isidentifier are those of ASCII.
pub mod Prelude
pub mod Text
pub mod Base
pub mod TreeManager
pub mod Types
pub mod Schema
pub mod Alerts
pub mod Bcdb
pub mod Config
pub mod Events
pub mod Gedis
pub mod Fs
pub mod Syncer
pub mod Process
pub mod Git
pub mod Hosts
pub mod Logging
pub mod Mnemonic
pub mod Nettools
pub mod Openresty
pub mod Startup
mod Tests
