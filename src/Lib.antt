-- ===== src/Lib.antt =====
-- MidnightSun is a host for game streaming: clients pair with it, send it their input, and receive the captured
-- screen. This library models parts of the host that keep state of their own.
--
-- The program's parts and how they interact. A network thread puts the input messages of a client into a queue
-- and pushes a task to the global task pool (src/task_pool.h) for each; a worker thread (src/thread_pool.h) runs
-- it, folds later messages into the first one, and hands the result to a handler (src/input.cpp), which calls
-- the platform and pushes delayed tasks: the key repeat, the delayed release of the left button, and the home
-- button. The HTTP servers (src/nvhttp.cpp) pair a client in four phases and hand its certificate to the TLS
-- verifier through a queue (src/thread_safe.h). Without a display, a virtual one is set up on the kernel's vkms
-- driver (src/platform/linux/headless.cpp) and captured at the rate of the stream. A web interface
-- (src/confighttp.cpp) writes the file that src/config.cpp reads and turns requests from other sites away.
-- A launch leaves a session waiting in the RTSP server (src/rtsp.cpp); its client's ANNOUNCE starts a session
-- (src/stream.cpp), whose encoded frames are cut into FEC blocks and shards, numbered, encrypted and sent in
-- batches, and whose audio packets get parity packets. The control server binds each session to a peer, decrypts
-- its messages, hands input to the queue above, and ends the sessions that stop or time out.
--
-- The files. Prelude holds what all of them share: names of the libraries, Boolean tests, lists, maps, and integers
-- with the 16-bit wrap-around.
--   TaskPool: src/task_pool.h and the loop `_main` of src/thread_pool.h. `tasks` and `timers` are `_tasks` and
--     `_timer_tasks`; `push`, `push_delayed`, `delay`, `cancel`, `pop`, `ready` and `next` are the methods of
--     these names, `pop_id` is `pop(task_id)`, and `run_ready` is the loop until it would wait.
--   Input: src/input.cpp. Packet holds the messages, Batch the functions `batch` and the loop of
--     `passthrough_next_message`, State the globals and `input_t`, Keyboard, Mouse and Gamepads the functions
--     `passthrough` of these messages (`free_pad` is `free_gamepad`) and the closures that they push, and
--     Reset is `reset` with its task.
--   Util/Hex: `hex_vec`, `from_hex` and `from_hex_vec` of src/utility.h.
--   Pairing: src/nvhttp.cpp and the types of src/nvhttp.h. `sessions` is `map_id_sess`; `get_server_cert`,
--     `client_challenge`, `server_challenge_resp` and `client_pairing_secret` are the four phases, and
--     Requests holds `pair` and `pin`.
--   Headless: src/platform/linux/headless.cpp and headless.h beside it. Display holds the methods of
--     `HeadlessDisplay` and `is_headless`; `setup_vkms` is the chain of `open_card`, `configure`, `connect`,
--     `make_framebuffer` and `set_mode`, and an exception of `directory_iterator` is an outcome. Capture is the
--     loop of `headless_display_t`.
--   ThreadSafe: `queue_t`, `event_t` and `shared_t` of src/thread_safe.h. A method is one step under its lock.
--   Csrf: the tokens of src/confighttp.cpp, `generate_csrf_token`, `validate_stored_csrf_token` and
--     `validate_csrf_token`.
--   Config: `parse_config`, `parse_option`, `string_f` and `bool_f` of src/config.cpp, with `list_string_f` and
--     `string_restricted_f` in Lists, and the text that `saveConfig` of src/confighttp.cpp writes (`save_config`). Texts are lists of characters.
--   Stream: src/stream.cpp. Slices is `concat_and_insert` and `replace`, Fec the namespace `fec` and the cut of a
--     frame into blocks, Video the rest of `videoBroadcastThread` and Audio that of `audioBroadcastThread`. Control
--     holds `control_server_t` and the loop of `controlBroadcastThread` with its sessions, Messages the handlers
--     of the messages (`receive` is a message off the wire), Feedback the messages that the host sends, and
--     Nonces the vectors of the ciphers, also those of src/rtsp.cpp. Session is the launch session and the slots
--     of src/rtsp.cpp with `session::start`, `stop` and `join`; the insertion and the start of a session are two
--     steps, between which the slots may be cleared.
-- Prelude/Segments writes into ranges of lists and Prelude/Bits is the or of machine words.
-- Each component has its tests beside it, in modules named Tests.
--
-- Conventions. Time is a number, an argument of each call that reads the clock. A call of the platform is an
-- entry of the list `out`, newest first. A new task has the address that the allocator chooses as its id; 0 is
-- the null pointer. A 16-bit sum keeps its wrap-around, and so do the 32-bit product of a mode's clock and the
-- counters of the streams. A function that throws gives an outcome or a state of its own. A task that the pool
-- runs is recorded and does nothing else.
--
-- Fuel. `run_ready` stops by itself if the fuel exceeds the number of tasks and timers. The fuel of `parse_lines`
-- is the length of the text, of which each round takes a character at least; so is that of `list_loop`. The
-- loops with a counter, such as `insert_loop` and `split_blocks`, go down from the number of their rounds.
--
-- Parameters. The functions of OpenSSL are a record `Crypto`, the answers of libdrm and of the kernel are
-- records `Device` and `System`, and the constants of moonlight-common-c are a record `Limelight`, since their
-- code is not in the repository. So are the Reed-Solomon code of nanors, the AES ciphers and the events of ENet.
--
-- Not modelled: the byte layout of input messages and the arithmetic on floats of touch and pen input; threads but
-- for the order of their steps; files, sockets, XML, JSON and logging; the encoders of video and audio; the
-- termination message of the control stream, the text of RTSP messages, and the start of the broadcast threads;
-- the readers of numbers in the configuration; the other platforms; the break of the control server's pass at a
-- shutdown, after which the code ends the sessions that are left; the division by 0 of `fec::encode` on an empty
-- payload, which no caller gives it; and exceptions of `fs::exists` and of the allocator.
mod Prelude
pub mod Util
pub mod TaskPool
pub mod Input
pub mod Pairing
pub mod Headless
pub mod ThreadSafe
pub mod Csrf
pub mod Stream
pub mod Config
