-- ===== src/Lib.antt =====
-- A verification library for nerves-hub-link-esp32, the NervesHub agent for ESP32 devices.
--
-- The agent joins NervesHub over a websocket, receives updates, and installs them in the inactive
-- slot of the flash; it also sends its log lines and answers a terminal. These parts are modelled:
--
--   Update, Install, Checksum, Error  (src/update.rs, src/install.rs, src/checksum.rs, src/error.rs)
--       An update's payload, the throttle of its progress reports, and the installation: `install`
--       is `install`, `download_image` is `download`, `copy_loop` is the loop of `copy`, and
--       `open_image` is `open`. The traits HttpStream, ImageSink and Progress are parameters: each
--       call is a function of a world of any type, and is noted in a trace. SHA-256 is a parameter,
--       with the law that only the bytes fed to it count.
--   Ota  (src/ota.rs)
--       The writer of the inactive slot, over ESP-IDF's calls as parameters, which are noted in a
--       trace. A patch's callbacks are part of the call that feeds it.
--   Inbound, Transport, Frame  (src/inbound.rs, src/transport.rs, src/message.rs)
--       The pieces of websocket frames put together into messages, and the channel between the
--       client's events and the run loop. An event is dealt with under the lock; `recv_frame` first
--       takes a message from the channel, without the lock, and then deals with it under the lock
--       (`take` and `recv_taken`). An execution is a sequence of these moves, in any order.
--   Link, Message, Json, Metadata  (src/link.rs, src/message.rs, src/metadata.rs)
--       The channels to the platform: what a device sends (`Link`), what it does with a frame that
--       came in (`Link.Handling`), and the messages and frames. The methods of `Link` keep their names;
--       `handle_device_frame` and `handle_control_frame` are the rest of `handle_message`. serde's
--       values and codecs are the interface `Json`, and the transport and the application's decisions
--       are parameters. An operation that fails leaves what it had done, so it gives a result and a
--       session; a session has the frames handed to the transport beside the link.
--   Extensions  (src/extensions.rs)
--       The extensions channel as a state machine, the versions it declares, and its payloads.
--   Config, SharedSecret  (src/config.rs, src/shared_secret.rs)
--       The waits between attempts, and the headers that sign the handshake. PBKDF2 and HMAC are
--       parameters.
--   Agent  (src/agent.rs)
--       The log sent at a pace, the pump that keeps a connection alive while an image comes down, the
--       update applied (`Agent.Updates`, over `Install.install`, with `apply` and `download` as in the
--       source), and the confirmation of the running image. The platform is a parameter.
--   Agent.Commands, Agent.Terminal  (src/agent.rs)
--       The registry of the terminal's commands, with `register` for the change that `command` makes,
--       and `answer_console`, which answers what an operator types. The commands of ESP-IDF are
--       arguments, and so is the naming of levels by the log crate (`LevelNames`).
--   Agent.Sessions, Agent.Reconnects  (src/agent.rs)
--       `session_within` as rounds of its loop: `tend` is what is done between frames, part after part,
--       and `act` what is done for the action of a frame; and `run`, which connects again and again.
--       `Providers` has what the application and the caller supply, its window and its control
--       included. Beside the source's variables a session notes the frames that it received and how often
--       it confirmed the image, and `run` the tries and the waits between them.
--   Whenwhere  (src/whenwhere.rs)
--       A lookup of the device's position. ESP-IDF's HTTP client is the parameter `Connection`, and
--       serde's values with f64 are `Reader`.
--   Console  (src/console.rs)
--       What a command prints, how keystrokes become lines, and how a line is split.
--   Logging  (src/logging.rs, and the log line of src/extensions.rs)
--       The bounded queue of log lines and the batches taken from it. What the allocator decides is
--       a parameter. What happens under one lock is one step; `take_stamped` takes the lock twice, and
--       what other tasks do to the buffer in between is its argument `meanwhile`, which the agent has
--       from its platform.
--   TlsSession  (src/tls_session.rs)
--       The slot that keeps a session between connections, and a ticket's date moved between clocks.
--   Base  holds the names, tests and lemmas that the others share.
--
-- A fallible operation gives a `Result`; a run of the installer is an option of one, which is none
-- only when the fuel of the copy loop is used up. More fuel than the update's size is enough, by
-- Install.Terminates. The wait between attempts of a download has a round for each millisecond, which
-- is enough by Agent.Waits. A 64-bit integer has at most eight digits in base 256, which is the fuel
-- there; the map of a line's metadata has a round for each pair, which is enough by Extensions.Meta.
-- Numbers are natural numbers; where the source's integers wrap or saturate, that is written out.
-- Texts that are cut, counted or encoded are lists of bytes; keystrokes are lists of code points.
--
-- The loops of a session and of `run` have no end of their own, so they are run for a number of rounds
-- and of tries that is arbitrary, and give the state that is then reached, going on or ended; the fuel
-- of their installations is enough by Agent.Sessions.Rounds.Returns. The loop that reads the reply of
-- a lookup has 4098 rounds, which are enough by Whenwhere.Reads.
--
-- Not modelled: the readings of src/health.rs, in floating point and by ESP-IDF (the report they fill
-- is in Extensions.Payloads); the reading of metadata from the running image; the logger that fills the
-- log buffer, which is glue to the log crate; and src/tls.rs, src/http.rs, src/identity.rs and
-- src/esp.rs, which call ESP-IDF.
pub mod Base
pub mod Error
pub mod Checksum
pub mod Config
pub mod Whenwhere
pub mod Console
pub mod Update
pub mod Frame
pub mod Inbound
pub mod Logging
pub mod Message
pub mod SharedSecret
pub mod TlsSession
pub mod Ota
pub mod Transport
pub mod Install
pub mod Json
pub mod Metadata
pub mod Extensions
pub mod Link
pub mod Agent
