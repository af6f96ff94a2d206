-- ===== src/Lib.antt =====
-- cpp-mcp, a server of tools that answer questions about C++ code through libclang.
--
-- A tool's call goes through these parts. `wrap_tool` turns every exception into an envelope
-- (Envelope, src/cpp_mcp/core/error_envelope.py). The handler checks the caller's paths against the
-- allowed roots (Paths, src/cpp_mcp/core/path_guard.py), looks the compiler flags up (CompileDb,
-- src/cpp_mcp/core/compile_db.py), asks the session for a translation unit (Session,
-- src/cpp_mcp/core/clang_session.py), which keeps parsed units in a cache that its threads share
-- (Cache, src/cpp_mcp/core/tu_cache.py), and walks the unit's cursors under a budget (Ast,
-- src/cpp_mcp/core/ast_walker.py). Tools.GetAst composes them as `_do_get_ast` of
-- src/cpp_mcp/tools/get_ast.py does. Session.Lifecycle has the index of libclang and the worker,
-- which `aclose` stops, around the lookup of Session; Session.Discovery is the search for libclang.
--
-- Query is the other path: the tool `query_graphdb` (src/cpp_mcp/tools/query_graphdb.py) selects an
-- executor (src/cpp_mcp/graphdb/query_executor.py) under a time limit
-- (src/cpp_mcp/core/query_config.py), and the Neo4j executor
-- (src/cpp_mcp/graphdb/neo4j_query_executor.py) asks for the plan of a query before it runs it. The
-- tool takes its executors as records of their methods, with the promise `RespectsLimit`, which
-- Query.Neo4j.Rows shows of the Neo4j executor; `execute` returns the texts that it sends beside
-- its result. Query.Neo4j.Connection opens and closes the driver, and Query.Neo4j.Coerce turns a
-- record into JSON.
--
-- Query.Indra is the other executor (src/cpp_mcp/graphdb/indradb_query_executor.py), which takes a
-- JSON payload: Payload and Request check it, Fetch asks the client, Rows and Pipe are the verbs
-- and Dispatch composes them; Connection opens and closes the client. The attribute `_last_total`
-- is the number beside the rows.
--
-- Config is the start-up (src/cpp_mcp/server/config.py), which gives the roots and the limits, and
-- Positions the check of a line and a column (src/cpp_mcp/core/cursor.py).
--
-- Exporter is the export of a unit to a graph (src/cpp_mcp/graphdb/exporter.py): Exporter.Variables
-- classifies a cursor and reads the qualifiers of a variable, Exporter.Types makes the nodes of
-- types, Exporter.Functions reads the properties of functions and classes, Exporter.Cursor is what
-- the walk reads, Exporter.Emit what it adds at one cursor, and Exporter.Walk is `_walk_cursor`
-- with the nodes, the edges and the USRs that its calls share in one record, `Graph`, and
-- `extract_nodes_and_edges`. A set of USRs is a list, of which only the membership is asked.
--
-- Drivers is what the graph goes to (src/cpp_mcp/graphdb). Drivers.Contract says what the content
-- of a database is, a set of vertices and one of edges, and what an upsert makes of it;
-- `KeepsContract` is the interface that `export_file` (Drivers.Export) works with, and
-- Drivers.Indra is the driver of src/cpp_mcp/graphdb/indradb_driver.py, with the calls on the
-- service as a parameter, `Client`, and the documented behaviour of the service as the record
-- `Healthy`. Drivers.Memory is a service that has it. Drivers.Neo4j is the driver of
-- src/cpp_mcp/graphdb/neo4j_driver.py, which writes by statements in a transaction. Drivers.Cognee
-- is that of src/cpp_mcp/graphdb/cognee_driver.py, with its index of the session and the transport
-- that runs the CLI.
--
-- Ingest is the tool that exports files (src/cpp_mcp/tools/ingest_code.py): it checks the request,
-- connects a driver, collects the files, and for each of them looks up its flags, asks the session
-- for the unit and exports it. Its state is the session's cache together with the database.
--
-- Navigation is the other tools that read a unit: get_references.py, get_definition.py,
-- get_type_info.py, get_header_info.py and get_preprocessor_state.py of src/cpp_mcp/tools.
-- Navigation.Parsed is the start that they share, `on_unit`, from the guard to the session;
-- Navigation.Tree is the tree of cursors, over what each tool reads of one; References, Definition,
-- TypeInfo, HeaderInfo and Preprocessor are the handlers, Macros and Conditionals the two halves of
-- the last one, with Directive for its pattern.
--
-- Introspect is the description of a live database (src/cpp_mcp/graphdb/schema_introspector.py) and
-- its tool (src/cpp_mcp/tools/describe_graph_schema.py): Entries has the entries of a description
-- with their order, Neo4j and Indra are the two introspectors, over a session and a client that are
-- parameters, and Tool is the handler, which chooses one.
--
-- Base holds what the modules share: tests on numbers, lists, an equality interface, texts as lists
-- of code points. Errors has the exception classes and the results of fallible code. OrderedDict is
-- Python's, with its laws.
--
-- State is passed along. The cache is the record `TuCache`; its methods return the new cache beside
-- their result, and the two sections of `get_or_parse` that hold the lock are `check` and `insert`.
-- Cache.Threads has the system of several threads as a step relation: other steps come between the
-- two sections, and before a parse ends. The walks thread `Walk` and `GraphWalk`, the budget with
-- the node counter and the lists that the calls of the source share.
--
-- Every loop is structural recursion, on a list, a text, a tree of cursors or a plan; the digits of
-- a number are on fuel above the number, which is shown to be enough. A cursor is a finite tree,
-- since libclang's children are. Python's integers have no bound; counters and limits are natural
-- numbers, and mtimes, line filters, severities and the capacity given to the constructor are
-- signed.
--
-- Parameters stand for what is not in the repository: the file system's answers, the SHA-1 digest,
-- the compilation databases and parser of libclang, the texts of exceptions, the answers of the
-- Neo4j and IndraDB drivers, the listings of directories, `json.loads`, `json.dumps`, SHA-256, the
-- command line of Cognee, `uuid`, `int`, `urlparse` and `shlex.split`, and the type of floats of
-- `stats`. The path functions of `os.path` and `pathlib` are written out for POSIX.
--
-- Not modelled: logging, the registration with the server framework and its resolvers, and the
-- event loop that hands calls to workers, which are input and output. The properties of vertices
-- and edges are sent, but the content that the contract is about leaves them out. What
-- `get_children` raises, and the spelling of a parameter, which the exporter reads unguarded, are
-- left out too.
pub mod Base
pub mod Errors
pub mod OrderedDict
pub mod Cache
pub mod Ast
pub mod Paths
pub mod CompileDb
pub mod Session
pub mod Envelope
pub mod Tools
pub mod Query
pub mod Positions
pub mod Config
pub mod Exporter
pub mod Drivers
pub mod Ingest
pub mod Navigation
pub mod Introspect
