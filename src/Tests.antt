-- ===== src/Tests.antt =====
-- Concrete inputs for the codecs of src/datautils.c.
pub mod Bytes
pub mod Numbers
pub mod Trees
pub mod Library
pub mod Idle
pub mod Items
pub mod Read
pub mod Ring
pub mod Connect
pub mod Loop
pub mod Scheduler
pub mod Table
pub mod Tags
pub mod Metadata
pub mod Net
pub mod Event
pub mod Threads
