-- ===== src/Lib.antt =====
-- A model of MTProxy, in the fork whose client secrets change at run time, and what makes it
-- correct.
--
-- The proxy accepts connections of Telegram clients. A client proves that it knows a secret,
-- either in the obfuscated handshake or in a ClientHello that imitates TLS, and its packets are
-- then passed on to Telegram. The secrets live in a store that an administrator changes while the
-- proxy runs: a handshake takes a snapshot of the active secrets, a connection that matched one is
-- attributed to it, and the traffic of the connection is counted for it.
--
-- Base: names passed on from the libraries, Boolean tests, lists with native indices, search in an
-- array and removal from one, the signed numbers, C strings as lists of character codes, the
-- numbers that atoi and atoll read, with the values of strtoll out of range, and the cutting of a
-- text into lines and fields.
--
-- Secret: the functions ext_* and tcp_rpcs_*secret* of net/net-tcp-rpc-ext-server.c. Secret.State
-- has the state under ext_secret_lock and the record Env of what a call takes from its
-- surroundings: the clock, whether allocations and file operations succeed, and what of the text
-- that it prints reaches the temporary file. Secret.Hex is ext_secret16_to_hex and
-- ext_secret16_from_hex, Secret.Text the clean-up of labels and addresses, Secret.Reserve the
-- growth of the two arrays, Secret.Persist ext_persist_locked, Secret.Add ext_add_locked,
-- Secret.Command the functions ext_cmd_*, Secret.Active the queries and the snapshot,
-- Secret.Traffic the attribution of connections and bytes, and Secret.Load
-- tcp_rpcs_load_secrets_state with the functions that it calls. The other modules of Secret are
-- lemmas: Valid has the invariant, Grow, Preserve and Outcome follow the state through a call,
-- Steps, Operations and Sweep treat each operation, Reach the step relation of all calls, Lookup,
-- Effect, Insert and Admit what the operations do to the entry of a secret, and Account what they
-- do to the counters. Below Secret.Load, Columns is the reading of a line, Printed, Reading and
-- Header are about lines as they are written and read, Restore and Roundtrip about the store that
-- comes back, Replace, Lines and Keeps about the invariant under any file.
--
-- Tls: the imitation of TLS in the same file. Tls.Random is the cache of client randoms with the
-- test of the timestamp; its two chains of pointers are lists of entries with the addresses of
-- their blocks. Tls.Sni is get_sni_domain_info on a buffer of bytes with reads that can fail; its
-- loop runs on the length of the request as fuel, enough by read_sni-ended. Tls.Domain is the hash
-- table of proxied domains, and Tls.Hello has check_response and the ServerHello that is emulated;
-- the key, the random and the encrypted data in it are arguments, and the loop over the extensions
-- runs on the length of the answer as fuel, enough by check_response-ended.
--
-- Transport: the packets of the compact and medium transports. Transport.Frame has
-- tcp_rpc_write_packet_compact of net/net-tcp-rpc-common.c and one turn of the packet loop of
-- tcp_rpcs_compact_parse_execute, Transport.Stream the loop. The flags of the connection are
-- fixed, as they are after the handshake, and buffers of messages are lists of bytes. Fuel for
-- more turns than the input has bytes is enough by read_loop-ends. The random padding is an
-- argument.
--
-- Timers: the heap of event timers of net/net-timers.c. The array and the fields of the timers are
-- functions of an index and of a timer's number, Timers.Hole and Timers.Sift follow the place that
-- the loops of basic_et_adjust move. Times of type double are numbers of ticks, the result of
-- thread_run_timers is left in ticks, and the function that a timer calls is an argument. The
-- loops of the heap run on its size as fuel, enough by adjust_lem; the run of timers on the size
-- and one more, which is enough where these functions insert nothing, by thread_run_timers_lem.
-- The size of the allocated array is not modelled.
--
-- Admin: ext_admin_handle_line of net/net-tcp-rpc-ext-server.c. Admin.Line reads a request,
-- Admin.Answer has what is printed to the buffers on the stack, Admin.Stats the growing buffer
-- with the statistics, and Admin.Handle the commands. The result of a line is what is written to
-- the socket, or none where that is not what was printed, and the store. The sums of two counters
-- are taken modulo 2^64, the number of bytes that the socket takes is not looked at, and a line is
-- what is before its NUL. Admin.Json, Admin.Http, Admin.Http.Request and Admin.Http.Routes are
-- ext_admin_handle_http with the functions that it calls; what the memory holds behind a label
-- without a NUL is an argument. Admin.Client is ext_admin_handle_client; what recv yields is a
-- list of pieces, each cut to the room that is left.
--
-- Times of type long long are unbounded integers, since the code only compares, copies and prints
-- them. Counters are 64-bit patterns that wrap. Ids are natural numbers: in the source they are
-- ints, as is the number of counters, which is doubled until it exceeds the id and overflows for
-- an id of 2^30 or more. Secret.Reserve.cap_overflows is that case; the reading of the state file,
-- which takes any id from the file, gives none there, for a call that does not come back. The
-- other calls give out one id at a time and come to such an id only after 2^30 additions, or after
-- a file that names one; this is left out of cmd_add, and Secret.Reach adds only below that bound.
-- The loops that double a capacity run on fuel, the wanted size, and double_below-ge shows that
-- this is enough.
--
-- Not modelled: sockets, threads and jobs, OpenSSL, the thread that listens for the administration
-- protocol, and the parts of the repository outside the files named above.
pub mod Base
pub mod Secret
pub mod Tls
pub mod Transport
pub mod Timers
pub mod Admin
mod Tests
