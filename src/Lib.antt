-- ===== src/Lib.antt =====
-- Llavon IME for Windows: the input method's own logic, from the key to the committed text.
--
-- A key pressed in an application reaches the key router, which decides from the mode and the state of
-- the composition what the key means. A symbol of the Bopomofo keyboard goes into the composition
-- buffer, whose entries are the syllables typed. A finished syllable takes the characters that the
-- table has for it, and the whole composition is sent to the conversion backend. Its answers come
-- back later and are merged into the entries that are still what was sent. While a candidate list
-- is open, the answer for its entry waits in the candidate lock. A composition that ends before its
-- answer came is sealed: its text stays in the document, and is replaced once it is converted. The
-- composition controller ties these parts together, and changes a document only in edits queued for it.
--
-- The backend is a service of its own. The engine writes requests to its pipe, byte by byte, and takes
-- what comes back into the entries that it was given; the service reads them in a loop, one client each,
-- serves a prediction with the one session that its clients share, and asks a lease to keep the clock
-- of the GPU up while there is work. The settings of the user are a JSON file. The service also looks
-- for updates, and shows a notification when a major one is out.
--
-- Files:
--   Bopomofo    frontend/src/core/bopomofo.hpp: the keyboard (Layout), HanziMapEngine (Hanzi) and
--               BopomofoPos (Entry), one definition for each member function, by its name;
--               `set_candaiates` is spelled `set_candidates`.
--   Buffer      frontend/src/core/buffer.hpp: class CompositionBuffer. State, Text, Edits and Merge
--               hold the operations, by their names.
--   Keys        frontend/src/tsf/key_router.hpp and key_router.cpp. Presses has the keys, actions
--               and tables, State the class KeyState. `route` is cut into the stages
--               route_punctuation, route_backtick, route_english, route_text, route_modified and
--               route_composition of Router, in the order of its early returns.
--   Conversions frontend/src/core/conversion.hpp (Tracker) and candidate_lock.hpp (Lock).
--   Sealed      frontend/src/core/sealed_text.hpp, sealed_text.cpp, training.hpp and the interfaces of
--               composition_host.hpp. The member functions of SealedQueue keep their names, but
--               `erase_at_caret` is `erase_sealed`, `add` is `add_segment`.
--   Controller  frontend/src/core/composition_controller.hpp and composition_controller.cpp. State has
--               the composition and the queue of edits, Actions and Results the operations of the class
--               (`open` is `open_composition`, `select_candidate` is `choose`, `on_conversion` is
--               `receive`), Steps the callbacks of `run_edit`, as `run_now` runs them.
--               `reset` is `reset_composition`, `set_backend` is `change_backend`. Parts cuts the operations
--               where a queued edit may run inside them. Ordered, OrderedKeys, OrderedEdits, OrderedSteps,
--               OrderedParts and Interleaving are about what holds in every order of events.
--   Worker      frontend/src/engine/engine_worker.hpp and engine_worker.cpp: the queue of jobs and the
--               state that the UI thread keeps.
--   Pipe        frontend/src/engine/impl/pipeEngine.hpp (Client: requests and answers; Connection: the
--               operations of class PipeEngine, of which `prefill` is `prefill_context`) and
--               handle_client of service/src/service/prediction_pipe_server.hpp (Server, whose request
--               type is ClientRequest), on streams of bytes (Bytes).
--   Gpu         service/src/service/gpu_activity_lease.hpp (Lease; `set_backend` is `give_backend`) and
--               class SessionLru of prediction_pipe_server.hpp (Sessions).
--   Settings    service/src/service/user_settings_codec.cpp (Codec; `encode` is `encode_settings`) and
--               user_settings.cpp (Store).
--   LoraHistory service/src/settings/lora_history_base.hpp: the base models that the history window
--               lists (Bases).
--   Updates     service/src/settings/update_checker.hpp and update_checker.cpp: the texts of a manifest
--               (Version), evaluate_manifest in its parts (Manifest), and check_now (Checking);
--               service/src/service/major_update_notifier.cpp, whose `run` is `run_notifier` (Notifying).
--   Prelude     lists, words and maps. Tests holds small inputs and the theorems at them.
--
-- State and errors: an operation takes the state and returns the new one, with its result. Where the
-- source throws, the result is an Option and `none` is the exception; in Updates, where exceptions
-- are told apart, it is Fallible. A text is the list of its UTF-16
-- code units, a character a code point. The caret of a buffer, an int that is -1 before the first
-- entry, is held as the number of entries before it. The counters wrap around at 2^64, the versions at
-- 2^32; where a theorem needs fresh ids it says how many have to be left. All loops are recursion on a
-- list, but for two on fuel: `move_caret` to the edge, on the number of entries, which is as far as the
-- caret can go, and the loop of the service, on one turn more than there are bytes to come, of which
-- each turn takes one at least; that loop gives no state where its fuel is used up.
--
-- Parameters: the encoder utf8::append16 (`append16`), the table's contents and the decoders of its
-- file, and the documents, a state with the operations of DocumentEditor, SealedTextStore and
-- TrainingSink (`DocumentHost`, `CompositionHost`). An edit that is queued for a document runs as a
-- step of its own, between the operations, or right away between two parts of one. A job of the worker is a value of any type. What a pipe still
-- delivers is a list of bytes, whose end is the end of the pipe; whether a transfer succeeds, the clock,
-- the calls of the system and of the GPU backend, and what a file system answers are inputs of the
-- operations. The inference session, the custom names and the writer of training data are the record
-- `Services`, the inference core is a function that creates sessions or fails, and rfl and utf8 are the record
-- `Libraries`. The JSON of Windows is the record `Json`; the pages of the releases, the build that is
-- installed and what the downloads bring are arguments.
--
-- Not modelled: the Text Services Framework, windows, the model itself, the training and the tree of
-- its history, the installation of updates and the drivers of the GPU, which are calls of the system
-- and of libraries; the lowest common ancestors in that tree, the custom name matcher and the
-- debugger's queue; locks and threads, but for the order of what happens; the timing traces; class
-- Buffer and `cur` of buffer.hpp, which nothing uses.
mod Prelude
pub mod Bopomofo
pub mod Buffer
pub mod Keys
pub mod Conversions
pub mod Sealed
pub mod Controller
pub mod Worker
pub mod Pipe
pub mod Gpu
pub mod Settings
pub mod LoraHistory
pub mod Updates
pub mod Tests
