-- ===== src/Lib.antt =====
-- prima-pool-client: the worker agent of a pool of machines that run one large model together.
--
-- A worker registers at the pool's control plane with a WireGuard key and the hash of its model
-- file, keeps a WebSocket open and sends heartbeats. The pool assigns it to a cluster; the worker
-- then brings up a WireGuard tunnel to the other members, finds its position in the ring and
-- starts a prima.cpp node with the addresses of the ring's head and of the next member. The head
-- reads from the output of its node how many layers each rank holds and reports it. When the
-- cluster is dissolved, tunnel and node go down and the worker waits again.
--
-- Which file models which part (paths from the repository's root):
--   Models        src/prima_pool_client/models.py, the control plane's schemas.
--   Config        src/prima_pool_client/config.py, the record ClientConfig; Load: its file and the
--                 variables of the environment over it.
--   Cli           src/prima_pool_client/cli.py, the commands behind the argument parser.
--   Ring          src/prima_pool_client/prima.py, _ring_members and _ring_neighbors.
--   Prima/        src/prima_pool_client/prima.py. Env: build_env; Capture: StdoutCapture;
--                 Hash: compute_gguf_sha256; Launcher: PrimaLauncher in both modes.
--   Halda/        src/prima_pool_client/halda.py. Regex: the regular expressions, finditer and
--                 search; Parse: parse_distribution, parse_window_size and build_distribution;
--                 Table: a printer of the table in the head comment of that file.
--   WireGuard/    src/prima_pool_client/wireguard.py. Conf: render_wg_conf; Manager:
--                 WireGuardManager; Handshakes: the parser of latest_handshakes; Keys and
--                 Base64: generate_keypair and derive_public_key, in Python's base64.
--   Agent/        src/prima_pool_client/agent.py. State: AgentState, Agent and _save_state;
--                 Persist: _load_state;
--                 Register: _ensure_registered; Cluster: _bring_up_cluster,
--                 _find_ring_position and _report_ready; Frames: _on_frame, _handle_assigned,
--                 _handle_dissolved, _recover_state, _heartbeat_once and stop; Monitor:
--                 _head_stdout_monitor and _send_distribution_and_ready; Relay: _relay_monitor,
--                 turn by turn; Events: heartbeats, frames, turns of the relay monitor and ends of
--                 the task behind the output, in any order; Channel: WsClient.run, turn by turn; Run: __init__, run with the stop
--                 behind it, and _ws_url. Keeps and Returns are rules for proofs:
--                 what a method keeps whether it returns or raises, and that a method returns.
--                 Identity and Membership are invariants of event sequences by these rules, and
--                 Online is the agent with the REST client, FirstStart the first session
--                 of a worker without a key, and Restart a start behind a registration.
--   WebSocket     src/prima_pool_client/ws_client.py, send_frame and the delays of run.
--   Pool          the operations of PoolClient that the agent calls, as a record: the agent is
--                 proved over any of them, and Rest gives the one of the program.
--   Rest          src/prima_pool_client/rest.py, PoolClient over the httpx package (Http) and the
--                 schemas of the pydantic package (Schemas); Bodies: what it sends.
--   System        what the program calls of the operating system, as a record of operations.
--   Base/         shared: Boolean tests, lists and texts over the native numbers, decimal
--                 numerals, exceptions as values (Exec), JSON values and Python's dict.
--   Tests/        concrete data, runs on the inputs of tests/, and the theorems at concrete data.
--
-- State is explicit: a method maps the object before to the object after and to a value or an
-- exception (Exec), and what was written before a raise stays written. The machine and the network
-- are one unknown state, on which the operations of Os (shutil, subprocess, pathlib, clock), Http
-- (httpx), Curve (the keys of the cryptography package) and Console (the terminal) act. Schemas
-- stands for the schemas of pydantic, Readers for tomllib and for float of a text, Hasher for
-- SHA-256 with the laws of a streaming digest, and dumps and loads for json.dumps and json.loads.
-- Ending (Prima/Launcher) says of Os what it means that a process is over or a compose project
-- taken down, as laws on any two predicates of the machine.
-- The agent is proved over two interfaces, Pool and Keys, which Rest and WireGuard/Keys fill. A
-- handler that the event loop cannot interrupt is one function; background tasks are values of the
-- object.
--
-- Bounds: the loop of compute_gguf_sha256 runs on fuel, one more than the file's length, which is
-- enough since each turn but the last takes at least one byte. The waiting loop of
-- _head_stdout_monitor has a turn for each second of the timeout and two more, which is enough if
-- each turn but the last takes a second. All other loops are structural.
--
-- Simplifications: a text is the list of its code points; `\d` and int() are for ASCII digits;
-- the fields of a frame, the values of a configuration file and the items of an answer of the
-- control plane that the command line shows are of their documented types or missing; no setting
-- is negative; numbers in JSON are natural; durations are in milliseconds; a path is joined as
-- for a relative name.
--
-- Not modelled: how long the waits of ws_client.py and the sleeps between the turns of run and of
-- _relay_monitor take (their turns are events in any order), and the log level and the argument
-- parser of cli.py.
pub mod Base
pub mod Models
pub mod Config
pub mod Cli
pub mod System
pub mod Ring
pub mod Prima
pub mod Halda
pub mod WireGuard
pub mod WebSocket
pub mod Pool
pub mod Rest
pub mod Agent
mod Tests
