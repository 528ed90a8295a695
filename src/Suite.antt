-- ===== src/Suite.antt =====
-- The test programs of the repository, run on the definitions: test/test_message_format.c in Formats,
-- test/test_io.c in Streams and test/test_writer.c in Writers. What a test checks of a call stands in
-- the equation below its run; fmemopen is a list of bytes here.
mod Formats
mod Streams
mod Writers
