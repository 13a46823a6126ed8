-- ===== src/Lib.antt =====
-- The antenna crate: a runtime that takes Turtle lines from a client, dispatches each by its type to
-- the RDF store, the carrier (libcarrier, the peer-to-peer messenger), the theme resolver or the
-- signed blocklist, and answers in Turtle. Scripts of a DAG are connected by channels in memory.
--
-- The parts and where they are modelled:
--   * Base: what the standard library of Rust gives to the code. A text is the list of its code points
--     (Base/Text), bytes are numbers below 256 (Base/Utf8), `Result` is anyhow's with the error's text.
--   * Channel: src/channel.rs. `RingBuffer` with `push` and `pop` (Channel), the abstract queue
--     (Channel/Queue), the clock and the two ends of a channel (Channel/Endpoint). A `u32` is a number
--     below 2 ^ 32 with its wrap written out, as in a release build. `send` has its 20 attempts; what
--     the reader takes during the pauses is a parameter of each send. Channel/Interleave is the
--     same ring under two threads, with a step for each access of a byte. Descriptors belong to the
--     operating system and are parameters.
--   * Turtle: the readers `strip_leading_directives`, `extract_type` and `extract_property` and the
--     function `turtle_escape` of src/dispatch.rs. Offsets count characters, not bytes. The outer loop
--     of `strip_leading_directives` has the length of the text as its fuel; each round shortens it.
--   * Carrier: the methods of `CarrierClient` in src/carrier.rs. A method converts its texts to C
--     strings in the order of the source, makes one request of the type `Call`, and turns a negative
--     return code into an error. What libcarrier does with a request is a parameter. Carrier/Event is
--     the data of the events, one constructor for a type and its part of the union, and their lines,
--     one function of Carrier/Event/Fields for each arm. Carrier/Time is `format_timestamp` with an
--     `i64` as an integer; its loop over the years takes 365 days or more in a round, which bounds the
--     rounds. Carrier/Time/Gregorian has the rules of the calendar, apart from the code's.
--   * Store: `RdfStore` of src/store.rs over Oxigraph, which is a parameter.
--   * Blocklist: src/blocklist.rs. Base64 and Ed25519 are parameters.
--   * Theme: src/theme.rs. The walk of ancestors runs on fuel; the number of themes is enough.
--   * Llm: src/llm.rs. The JSON of the HTTP backends (Llm), whose request is a parameter, and the
--     Turtle of the platform's backend with `create_backend` (Llm/Platform).
--   * Dag: the running DAG of src/dag.rs: `broadcast`, `pump_emits`, `pump_queries` and `health_check`;
--     Oxigraph's parser is a parameter of `validate_turtle`. Dag/Synthesis is the loop of
--     a semantic router, one round for a wake-up; the model is a parameter. Dag/Nodes is the query for
--     the script nodes; the texts of terms are parameters.
--   * Ffi: src/ffi.rs, what `antenna_send` and `antenna_drain` do to the rings of a handle.
--   * Dispatch: `dispatch` and its handlers in src/dispatch.rs. `World` is what a line can change: the
--     store, the DAG, the carrier's client, and the messages sent. A handler is a function on it.
--     Dispatch/Command has one function for each arm of `handle_carrier`.
--   * Runtime: src/lib.rs. `tick` is the composition of its phases over `AntennaContext`, whose world is
--     the dispatcher's; Runtime/Boot is the creation of a context and `replace_pipeline`. `Host` and
--     `Setup` are what they take from outside, such as the events that an iteration hands over.
--   * Logging: src/logging.rs, the line of a record and the filter `--log-tags`, and `log_callback` of
--     src/carrier.rs. Logging/Time is `iso8601_millis` with its own loops for the date; a time is its
--     nanoseconds from 1970 on. What tracing formats, the level and the fields of a record, is given
--     with the record.
--
-- Not modelled: tracing and `init` of src/logging.rs; the rest of the loading of the DAG and the threads
-- of its scripts (the handlers of Dispatch take `broadcast` as a parameter); the handles and callbacks
-- of the C interface; the WebSocket transport and the script virtual machine.
pub mod Base
pub mod Channel
pub mod Turtle
pub mod Carrier
pub mod Store
pub mod Blocklist
pub mod Theme
pub mod Dag
pub mod Ffi
pub mod Llm
pub mod Logging
pub mod Runtime
pub mod Dispatch
