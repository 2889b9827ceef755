-- ===== src/Server.antt =====
-- tintin-server/src: the relay. `Db` is the database, the modules below it are the operations of
-- store.rs on each group of tables, and `Command` is the dispatch of main.rs.
pub mod Db
pub mod Messages
pub mod Like
pub mod Users
pub mod Groups
pub mod Channels
pub mod Statuses
pub mod Polls
pub mod Timeline
pub mod Consistency
pub mod Command
pub mod Toy
pub mod Tests
