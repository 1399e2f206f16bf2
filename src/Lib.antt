-- ===== src/Lib.antt =====
-- dbslayer: a daemon that answers SQL queries over HTTP with JSON, and the scripts of its statistics
-- page.
--
-- Parts of the program that are modelled, and where
--
-- * The request parser. A worker thread polls the connections; for each readable one it calls
--   `request_parse` (common/slayer_http_server.c), which receives into a buffer and runs two state
--   machines over it: `slayer_http_request_line_parse` and `slayer_http_request_header_parse`
--   (common/slayer_http_parse.c, include/slayer_http_parse.h).
--     Http/Parse.antt: the state that both share, `slayer_http_request_parse_t`, and its initial value.
--       The buffers are lists of bytes, as long as what was stored; `uri_data_size` is their capacity.
--     Http/RequestLine.antt: the machine of the request line: one function for one byte, and the loop.
--     Http/HeaderSection.antt: the machine of the header lines, `check_header`,
--       `slayer_http_header_append` and `slayer_http_header_get`.
--     Http/Connection.antt: `request_parse` and the poll loop around it. What the network delivers is
--       an argument, so every way of cutting a request into pieces is covered.
-- * The encodings of texts, which the query string and the JSON parser call.
--     Text/Url.antt: `urldecode` (common/urldecode.c).
--     Text/Utf8.antt: `slayer_escaped2utf8` and `slayer_hex2int` (common/slayer_utf8.c).
-- * JSON, the language of the queries and of the answers.
--     Json/Value.antt: `json_value` and the skip list of an object (include/simplejson.h,
--       common/json_skip.c): `json_skip_put` and `json_skip_get` on its bottom list.
--     Json/Skip.antt: the skip list with all its levels, its pointers as a function, which a theorem
--       relates to the bottom list that the other parts use.
--     Json/Print.antt: `json_serialize` (common/serializejson.c).
--     Json/Xml.antt: `xml_serialize` (common/json2xml.c). Json/Xml/Read.antt is a reader of XML, which the
--       theorem about it is stated with; it is not code of the program.
--     Json/Scan.antt, Json/Parse.antt: `decode_json` (common/simplejson.c): literals, numbers and strings;
--       arrays, objects and the depth limit. A text is the bytes before its NUL, as its only caller gives
--       them. A double is its 64 bits: `strtod` and `snprintf` of it are arguments.
-- * The dispatch of a parsed request to the services, the statistics and the files, and the connections.
--     Server/Dispatch.antt: `slayer_http_request_dispatch` and the check of the bearer token
--       (common/slayer_http_server.c); what it calls is an action.
--     Server/Connections.antt: `slayer_http_connection_count_increment`, `slayer_http_connection_close` and
--       the check behind `apr_socket_accept`.
--     Server/Response.antt: `slayer_http_handle_response`.
-- * The handler of the daemon, which ties these parts together: it decodes the statement of a request,
--   asks the database and prints the result.
--     Server/Query.antt: `parse_qstring` (common/qstring_parse.c).
--     Server/Daemon.antt: `dbjson_handler` (server/dbslayer_server.c). The database is a function from a
--       statement to a result; the state is the counter of its errors and the list of error messages.
-- * The database behind the handler (db/dbaccess.c).
--     Db/Table.antt: `dbresult2json`, the table of a result.
--     Db/Batch.antt: `dbprocess_result`, `dbaffected2json` and the loop over the results of a query.
--     Db/Handle.antt, Db/Handle/Startup.antt: `db_handle_reattach`, `db_handle_init`, `db_handle_destroy`.
--     Db/Timeout.antt: `db_query_timeout_seconds`.
--     Db/Execute.antt: `db_report_error`, `dbprocess_metadata` and `dbexecute`. The MySQL client is a
--       record of functions of the calls that were made before; the results of a query come as a finite
--       list. A RESULT that is published as an array is put with what the array holds in the end, since
--       the loop goes on to append to it. Server/Daemon/Database.antt puts `dbexecute` behind the handler.
-- * The log of the latest requests, which the workers fill and a page of the server prints.
--     Server/Log.antt: `slayer_log_sanitize`, the ring of entries that `slayer_server_log_add_entry` and
--       `slayer_server_log_add_error` fill, and `slayer_server_log_get_entries`
--       (common/slayer_server_logging.c).
-- * The statistics: the workers count requests, a timer thread turns the ring.
--     Server/Stats.antt: `slayer_server_stat_init`, `slayer_server_stat_update`,
--       `slayer_server_stats_tick` and `slayer_server_stats_tojson` (common/slayer_server_stats.c). The
--       report is the object that the last one gives to `json_serialize`.
-- * The file server, which answers with the pages below a base directory.
--     Server/Files.antt: `slayer_http_fileserver` (common/slayer_http_fileserver.c): the checks of the
--       path, the content type and the response, for any file system.
-- * The charts, htdocs/plotr, loaded by htdocs/statchart.html. A chart is an object with options, data
--   sets and what `_evaluate` computes from them.
--     Plotr/Number.antt: the numbers of JavaScript. They are doubles, so the type, its operations and
--       the laws that hold of them are parameters.
--     Plotr/Prototype.antt: the functions of prototype.js that the charts call.
--     Plotr/Color.antt, Plotr/Hsb.antt, Plotr/Scheme.antt: Base.js, the colors.
--     Plotr/Settings.antt: Canvas.js, the options and their defaults.
--     Plotr/Chart.antt: Chart.js and parts of Canvas.js: the state of a chart, `initialize`,
--       `addDataset`, `reset`, `_eval`, `_evalXY` and `setColorscheme`.
--     Plotr/Ticks.antt: Chart.js, `_evalLineTicks` and its two halves.
--     Plotr/Table.antt: Chart.js, `addTable`.
--     Plotr/Canvas.antt: Canvas.js, `_render`, `_renderBackground` and `_renderAxis`: drawing is the list
--       of the commands that the canvas receives and of the labels that are put into the page.
--     Plotr/Line.antt, Plotr/Bar.antt, Plotr/Pie.antt: LineChart.js, BarChart.js and PieChart.js, what
--       `_evaluate` computes; Draw.antt in the folder of each: what `render` draws.
--     Plotr/Vml.antt, Plotr/Vml/Render.antt, Plotr/Vml/Kinds.antt: `_ieWaitForVML`, `_initCanvas`, `reset`
--       and `render` in a browser without a canvas of its own, where a chart waits for the emulation.
--       Calls, ticks of the timer and the canvases that are ready then are events of a list. `render`
--       draws through a record of the members that differ between the charts.
--   Plotr_uncompressed.js is the same code in one file.
--
-- The files below a component's folder hold its theorems, and Tests.antt the runs and the
-- applications of the theorems. Prelude.antt and its folder hold what the parts share.
--
-- Conventions: bytes, counters and lengths are native numbers. The values that a Plotr function can
-- throw on are an Option, with `none` for an exception. A JavaScript object with named data sets is a
-- list of them in the order of their insertion; their names are not array indices. The functions that
-- prototype.js adds to every array are among the properties that a loop over it meets: the evaluation
-- skips them, and the drawing is given their names as `inherited`.
--
-- Bounds and fuel: the `do` loop of `request_parse` is given fuel, one round for each byte that is received
-- and one more, and so are the loops of the JSON decoder over elements and members, by the bytes that are
-- left; theorems say that this is enough. The decoder recurs on the depth that is left, from 64 down, and
-- the digits of a number are at most 20. `parse_qstring` is given a round for each byte and one more, and
-- a theorem reads a whole query string with it. `render` in Plotr/Vml/Render.antt is given two rounds, for
-- the call and for the request that it takes from the stack; a theorem says that more give the same. The
-- loop over a level of a skip list is given a round for each node, which is proved to be enough. All else
-- is structural recursion.
--
-- Not modelled: the sockets, threads, queues and memory pools of APR, TLS and the MySQL client; the
-- canvas emulation for old browsers (excanvas.js); log files, the arguments, and the options of a
-- connection to MySQL.
pub mod Prelude
pub mod Http
pub mod Text
pub mod Json
pub mod Server
pub mod Db
pub mod Plotr
