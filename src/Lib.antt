-- ===== src/Lib.antt =====
-- Toolcage runs the tools of an MCP server, a WebAssembly guest, one instance to a call, under a
-- policy file. This library models its core and proves it correct.
--
-- A client sends JSON-RPC messages, one to a line. `Session::handle_line` (src/server.rs) parses
-- each with src/rpc.rs, answers the handshake, lists the tools that the policy (src/policy.rs) makes
-- visible, in pages with authenticated cursors (src/paginate.rs), and hands an allowed call to the
-- runner (src/runner.rs) with the grant of the policy; each call is noted in the audit trail
-- (src/audit.rs) by lengths and hashes. The runner of src/sandbox.rs executes the guest with wasmtime
-- in a fresh store to a call; src/main.rs reads the flags, loads the policy, probes the module and
-- serves the lines of the standard input.
--
-- Which file models what:
--   Prelude: the names, list, text and result lemmas, and machine words that the others share.
--   TreeMap, Json: `BTreeMap` and `serde_json::Value`, as the sources use them. The text form of
--     JSON is a parameter, `Serde`.
--   Bits: laws of the bit operations.
--   Policy: src/policy.rs. Build is `from_yaml_str` and its helpers, Decide the methods of `Policy`.
--     The YAML reader, the file system and `Path::parent` are parameters. An error is a value, in
--     place of its text.
--   Audit: src/audit.rs. Sha256 is `sha256` and `sha256_hex`, Clock `rfc3339_utc`, Trail the
--     `Auditor`. The clock, and writing to a file or the standard error, are parameters.
--   Paginate: src/paginate.rs. Base64, Hmac and Cursor are the code.
--   Rpc: src/rpc.rs. Transcript builds a guest's input, Extract scans its output.
--   Runner: src/runner.rs. A runner acts on a world, whose type is a parameter.
--   Sandbox: src/sandbox.rs. Guest is one execution, `run_guest` and `execute`; Calls is `WasmRunner`,
--     with `parse_probe` and `call`. What wasmtime, threads and the clock do is a parameter, `Host`;
--     its types of engines, modules, stores and instances are unknown. Preopens, Touched and
--     Contained show what a guest is given, Bounded and Budgets the limits, Outcomes and Probed the
--     results. Ticker is the thread that `new` starts, and the `Drop` that stops it.
--   Server: src/server.rs. A handler takes the session and returns the new one and its reply. The
--     session keeps the calls of `Auditor::log` in a list, and the world that the runner acts on.
--     Handlers has one function for each handler; Lines is `trim` on a blank line. Steps is an
--     abstract session, from which Safety, Counts, Stamped and Handshake follow.
--   Main: src/main.rs. Flags has the loops over the arguments, Commands `cmd_run`, `cmd_inspect` and
--     the cursor key, Check `cmd_check` and `real_main`. The file system and the like are a
--     parameter, `System`; the lines of the standard input are an argument, and what a command
--     prints is a `Report`. Printed is about the flags, Missing and Mounted about `check`, and
--     Effects, Trail, Served and Dispatch about what the commands do to the world and the audit trail.
--
-- Numbers and strings: a u8, u32, u64 or usize is a natural number, with its wrap-around written
-- out where the code can reach it; the count of problems of `cmd_check`, an i32 that 2^31 missing
-- directories would take out of range, is a natural number too. A string is its UTF-8 bytes. An
-- i64 or a float occurs only in JSON, where it is serde's number; an exit code, an i32, is a `ℤ`
-- of Prelude/Words.antt.
--
-- Fuel: `pad_zeros` takes 64 steps, more than a block has bytes; `absorb` takes the length of the
-- message, of which each step takes 64 bytes; a walk over pages takes one step more than there are
-- tools; `digits_of` takes 20, enough for 64 bits. The loops over lists are structural.
--
-- Not modelled: what an abandoned thread does to the world after the client's wait, and how the ticker
-- thread and the other code interleave (the thread is a loop of its own); the clock, which is a
-- parameter; the usage text; the fixture, the tests and the demo. That SHA-256 and HMAC are hard to
-- break is not stated: where it matters, a theorem asks that two tags or two snapshot ids differ.
pub mod Prelude
pub mod TreeMap
pub mod Bits
pub mod Json
pub mod Policy
pub mod Audit
pub mod Paginate
pub mod Rpc
pub mod Runner
pub mod Sandbox
pub mod Server
pub mod Main
