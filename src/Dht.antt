-- ===== src/Dht.antt =====
-- The routing table of the DHT client under benliud_btkad/src: keys, buckets, result stores.
pub mod Key
pub mod Entry
pub mod Bucket
pub mod Store
pub mod Lookup
pub mod DataBase
pub mod Node
mod Tests
