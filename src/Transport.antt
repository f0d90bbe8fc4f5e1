-- ===== src/Transport.antt =====
-- crates/smb-transport: the frames that go out and the cursor that sends them. A byte buffer is a
-- list of bytes.
pub mod Frame
pub mod Cursor
