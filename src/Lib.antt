-- ===== src/Lib.antt =====
-- ida_mcp: a model of the MCP server that runs inside IDA Pro, and what holds of it.
--
-- The program is an HTTP server (ida_mcp/zeromcp) that reads JSON-RPC requests, checks who may
-- call which tool, and runs the tool's body on IDA's main thread (ida_mcp/sync.py). The tools
-- (ida_mcp/api_*.py) call the IDA SDK and share a few helpers. A plugin (ida_mcp_loader.py) starts
-- and stops the server. A request passes the parts in this order: body and headers, flags of the
-- URL, dispatch, tools/call, the sync wrapper, the tool.
--
-- Which file models which part:
--
-- - Prelude, Text, Json, Number, Exec: what the other modules share. A text is the list of its
--   code points; a JSON value is a tree (Json.Value), and what a value is as a dict key is
--   Json.key_of, none where Python raises TypeError. Exec is a call that reads and writes a state
--   and may raise: what was written before a raise stays written.
-- - State: the thread-locals and tables of ida_mcp/zeromcp/jsonrpc.py, and the fields of McpServer
--   that calls write.
-- - Jsonrpc: ida_mcp/zeromcp/jsonrpc.py. dispatch is JsonRpcRegistry.dispatch, call is _call,
--   base_map_exception and mcp_map_exception are the two map_exception methods;
--   register_pending_request, unregister_pending_request and cancel_request keep their names.
-- - Mcp.Annotation, Mcp.Server, Mcp.Access, Mcp.Stats, Mcp.Audit, Mcp.Result, Mcp.Call: tools/list
--   and tools/call of ida_mcp/zeromcp/mcp.py. Mcp.Access.denial is the chain of early returns of
--   _mcp_tools_call, Mcp.Call.admitted what follows it at the gate, Mcp.Call.entered what follows
--   from the registration of the request, Mcp.Result.shape_response what becomes of the registry's
--   answer, Mcp.Call.settle the finally block.
-- - Compat: the version of IDA in ida_mcp/compat.py, with the comparisons of versions.
-- - Mcp.Stats.Snapshot: McpServer.get_stats, with the percentiles of the last durations of a tool.
-- - Mcp.Host, Mcp.Body, Mcp.Post, Mcp.Sessions, Mcp.Protocol: the HTTP handler of the same file,
--   its session table, and the protocol's own methods.
-- - Sync.Wrapper: _sync_wrapper and sync_wrapper of ida_mcp/sync.py. IDA's own calls are the
--   record Ida; what execute_sync does with an exception of its callable is a parameter. Sync.Hook:
--   the profile hook and the polls. Sync.Watchdog: the thread that injects interrupts.
-- - Tools.Regex, Tools.Signature, Tools.Limits: ida_mcp/regex_guard.py, ida_mcp/api_sigmaker.py,
--   and helpers of ida_mcp/api_analysis.py, ida_mcp/api_query.py and ida_mcp/server.py.
-- - Mcp.Sse: the event streams of the same handler (send_event, _handle_sse_post, _handle_sse_get,
--   do_DELETE). A connection is an object in a store, so that the table and the handler's thread
--   share it; what threads do, in any order, is a list of Mcp.Sse.Op. Mcp.Call.Concurrent: the steps
--   of several tools/call at once around the gate.
-- - Process: start_server, stop_server and close_instance of ida_mcp/server.py, with serve and
--   stop of McpServer. Process.Serving.Event is what can happen to a process.
-- - Tools.Trace and Tools.Callgraph: trace_data_flow and callgraph of ida_mcp/api_composite.py.
--   Tools.Search and Tools.Convert: find_bytes and int_convert of ida_mcp/api_analysis.py.
--   Tools.Query: func_query of ida_mcp/api_query.py. Tools.Enums: enum_upsert of
--   ida_mcp/api_typeinfo.py. Tools.Budget: make_signature of ida_mcp/api_sigmaker.py, with what the
--   wrapper of a hop raises and when a hop ends given. Tools.Patch: patch_bytes, revert_patch and
--   list_patches of ida_mcp/api_modify.py. Tools.Debugger: the batch mode around dbg_start of
--   ida_mcp/api_debug.py. Tools.Script: _run_code of ida_mcp/api_python.py, and execute_script.
-- - Loader: ida_mcp_loader.py. Hooks: ida_mcp/api_hooks.py. Profiles: ida_mcp/profiles.py.
--   Instances: ida_mcp/discovery.py.
-- - Tests: concrete runs.
--
-- Parameters: the json codec, str() of a value, the text of an exception and of its traceback
-- (Jsonrpc.Env), float(), zlib, the host name that urlparse finds, UTF-8 decoding, re's parser,
-- IDA's decoder, its byte search, its references, functions and bytes, fnmatch, and what a
-- client's script does. Where a theorem needs what one of them documents, it is a hypothesis of
-- that theorem.
--
-- Bounds and fuel: a chunked body is read with one more round than it has bytes, and every round
-- takes a byte; a signature is grown with one more round than its maximal length, and every
-- instruction adds a byte. A trace has as much fuel as it may have nodes, and each round that goes
-- on records one; a byte search has the length of its range, and each round passes an address. So
-- the fuel is enough. The call graph needs none: its recursion is on the depth that is left.
--
-- Times are whole numbers on one clock: milliseconds in Sync, ticks elsewhere. Integers are
-- unbounded, as Python's are. lower() maps ASCII letters only; int() reads ASCII digits, without
-- the limit on their number. Records of the audit have no time stamp, and the write to the file is
-- taken to succeed. The text "return" among a function's type hints plays no part in coercion. A
-- tool's body is a function of the state: a body that never returns is not an instance of it.
--
-- Not modelled: the sockets, the foreground server and stdio, the tools that only pass arguments
-- to the IDA SDK and render what it returns, the wrappers of ida_mcp/compat.py that look up
-- functions of the SDK by name.
pub mod Prelude
pub mod Text
pub mod Json
pub mod Exec
pub mod State
pub mod Number
pub mod Jsonrpc
pub mod Mcp
pub mod Sync
pub mod Tools
pub mod Compat
pub mod Loader
pub mod Hooks
pub mod Instances
pub mod Profiles
pub mod Process
pub mod Tests
