-- ===== src/Lib.antt =====
-- TinTin, a messenger: the library of the clients and the relay server.
--
-- The program's parts. The clients share tintin-core: keys, a cipher, a ratchet for each
-- conversation, sessions over it, and the messages that travel. The relay, tintin-server, reads one
-- JSON request per line, answers each from an SQLite database, and passes the messages on.
--
-- * Core models tintin-core/src. Core/Keys is keys.rs, Core/Cipher is cipher.rs, Core/Message is
--   message.rs, Core/Error is error.rs, Core/Ratchet is ratchet.rs and Core/Session is session.rs:
--   one record for each struct and one function for each method, with `&mut self` as a state that
--   comes back (`encrypt_message` is `Ratchet::encrypt_message`, `session_initiator` is
--   `Session::new_initiator`, `get` and `add` are `SessionStore`'s). Core/Ratchet/InSync and
--   Core/Ratchet/Rotation are about ratchets, Core/Session/Lookup about the store, and
--   Core/Session/Delivery about two clients and every order of their events.
-- * Server/Db models the schema in `Store::open` of tintin-server/src/store.rs and what a statement
--   does; Server/Users, Server/Messages, Server/Groups, Server/Channels, Server/Statuses,
--   Server/Polls and Server/Timeline model the methods of `Store`, under their names. The modules
--   below each are about it. Server/Consistency holds an invariant of all the tables, and what the
--   operations and the requests do to it.
-- * Server/Command models tintin-server/src/main.rs: the payloads in Server/Command/Payload, the
--   responses in Server/Command/Response, a handler under its name in Server/Command/Directory,
--   Rooms, Stories, Broadcasts, Votes and Posts, and `handle_command` itself.
-- * Client models tintin-cli/src/main.rs, the terminal client. Client/State is `TinTinClient` and what
--   it takes from outside, Client/Wire the JSON inside a message, Client/Sending the registration,
--   the sessions and `send_message`, Client/Receiving the loop of `receive_messages`, Client/Edits
--   `edit_message`, Client/Files the chunks of a file, Client/Uploads `send_file_inner`, Client/Calls
--   the signals and the media of calls, Client/Groups and Client/Channels the methods of those names,
--   Client/Contact the contact link. A method is a function on a `Device`: the client, the
--   connection, and how often the client has looked at the clock or the generator. The modules
--   below each are about it; Client/Codecs says what the crates under the client document.
-- * Sdk models tintin-sdk/src/lib.rs: manifests, permissions and the sandbox of a mini-app.
-- * Prelude has what these share: results and state, lists, and the statements of SQL on rows.
-- * Core/Tests, Server/Tests, Client/Tests and Sdk/Tests run the theorems on small inputs;
--   Server/Toy and Client/Toy are a JSON, two clients and a relay for them.
--
-- How the code is read. Bytes are numbers in lists. A counter of u32 wraps around, and the time of a
-- story is compared as u64 and i64 do. SQL is read as statements on the rows of a table in the order
-- of insertion; ORDER BY is a stable sort; LIKE ignores the case of ASCII letters, as SQLite does.
-- Numbers of rows are natural numbers: a request with a negative i64 is not modelled. It matches no
-- row that the relay numbers; where foreign keys are off, a row can be inserted under it. Any
-- statement may fail: a connection carries the list of its faults to come, and a failed statement
-- changes nothing. `prepare` is a statement of its own where an error of what follows is dropped.
-- `enforces` says whether SQLite checks foreign keys. The connection is behind a lock, so the
-- operations run one after another. What the clock and the random generator give are arguments.
--
-- What is a parameter. The cryptographic crates are the record `Crypto`; `Sound` says that key
-- agreement is symmetric and that decryption undoes encryption, and `Total` that sealing does not
-- fail. serde_json is `EnvelopeJson` and `Json`; `ReadsBack` says that an envelope is read back from
-- its text. In the client, `Codec` holds the JSON, hex and base64 functions, `Faithful`,
-- `Readable`, `Reads` and `Decodes` say that they are read back, and `Sized` that public keys have
-- 32 bytes; the connection is two functions that may answer anything or fail. The loops are
-- recursion on lists; `slice::chunks` takes as fuel the number of bytes, which is enough since each
-- chunk has one at least.
--
-- Not modelled: the TCP loop, the log lines, the zeroing of keys on drop, the JSON texts, the
-- client's terminal, display, audio device and files on disk, its requests for polls, the timeline,
-- stories and stickers, the bindings for C and Java, and the apps.
pub mod Prelude
pub mod Core
pub mod Server
pub mod Client
pub mod Sdk
