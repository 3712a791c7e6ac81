-- ===== src/Net.antt =====
-- Parts of src/net/sb_net.c that do not touch libuv, zlib and the generated protocol.
pub mod Buffer
pub mod Fill
pub mod Header
pub mod Read
pub mod Start
pub mod Connect
