-- ===== src/Lib.antt =====
-- libsdlog writes flight logs in the DataFlash format of ArduPilot: a log is a sequence of binary
-- records, each with a message format that says which columns it has, and an FMT record that
-- describes a format stands before its first record. This library models the C code in src/ and
-- include/sdlog/ (paths from the root of the repository).
--
-- Parts and files. A function `sdlog_f` of the code is the definition `f` here, without the prefix.
--   Outcome     include/sdlog/error.h, src/core/error.c: codes, messages, and commands. A command
--               takes the state and returns the new state with an outcome: success with the output
--               arguments, an error code, a fault (undefined behaviour or a failed assertion), or
--               out of fuel. `do` blocks stand for chains of SDLOG_CHECK, `finally` for `goto
--               cleanup`. `Ends` is total correctness: neither a fault nor out of fuel.
--   Memory      src/core/memory.c: the allocator grants or refuses each request as a function says
--               that is part of the heap, so a theorem for every heap covers every pattern of
--               failing allocations. The heap counts the blocks that are allocated. A block has a
--               size and the items that were stored; a store out of bounds is a fault.
--   Endianness  src/core/endianness.c.
--   Model       src/core/model.c, include/sdlog/model.h: columns and message formats. Model/Extend
--               has add_column and add_columns, Model/Strings the strings made of a format;
--               Model/Invariant, AddColumn, Names, ColumnLoop and AddColumns are about growing a
--               format, Lifecycle about init and destroy, Access, Size and StringLaws about the
--               getters, and Described is a valid format apart from its heap.
--   Encoder     src/core/encoder.c: records from a format and variadic arguments, which are a list.
--               Encoder/Decode has a reader of records that does not look at the encoder;
--               Encoder/Typing is a type checker of calls, and Encoder/Ending about how calls end;
--               Encoder/Errors is about the bytes in front of an array, which cannot be encoded.
--   Stream      src/io/base.c, include/sdlog/streams.h: a stream is a table of optional methods and
--               a context. Stream/Sink and Stream/Source state the contracts of output and input
--               streams that move some byte in each call, Stream/SlowSink and Stream/SlowSource those
--               of nonblocking streams, which need not, as the header documents them; the loops of
--               write_all and read_exactly are proved for the latter. Stream/Blocked is about
--               streams that move nothing any more, Stream/Pipe has a nonblocking stream for the
--               tests. Stream/Quiet states the contract of an output
--               stream, nonblocking or not, which shares the heap with its user; Stream/Still is
--               about reading a stream to the end and destroying it.
--   Buffer      src/io/buffer.c: both buffer streams, as instances of these contracts
--               (Buffer/Output, Buffer/Input and Buffer/Quiet). Buffer/Growing is about the loop that
--               makes room, Buffer/Life about whole calls; Buffer/Bounds and Buffer/Fill are about the
--               size of the growing buffer. Buffer/Reading has a client that opens, reads and closes an
--               input buffer.
--   Null        src/io/null.c.
--   Writer      src/core/writer.c, include/sdlog/writer.h: the writer over a stream, with its heap,
--               a format and the encoder.
--               Writer/Spec has the abstract log: plain lists of bytes, made from the calls alone.
--               Writer/Ready says when a writer stands for a log; Texts and Describe are about
--               write_format, Opening, Entries, Calls and Each about sdlog_writer_write, Encoded about
--               sdlog_writer_write_encoded, FmtFormat, Life and End about init, end and destroy, and
--               Session and Buffered put a whole log together. Writer/Reader is a reader of logs
--               that knows only the FMT format; ReadOne and ReadBack are about what it makes of the
--               logs of the writer. Writer/Trace is about any sequence of calls, also by a client
--               that goes on after errors, Writer/Known about records of a format that was described,
--               Writer/Formats about which formats the writer takes for described, Writer/Lifecycle
--               about destroy without a session, Writer/Leak about a failed init,
--               Writer/Alike about what FMT records cut off, Writer/Framing about cutting a log
--               into records by the Length fields of the FMT records, Writer/Agree about what a
--               reader has learned, Writer/Closing about the flush and the end of the session behind
--               the last record. Writer/RoundTrip and Writer/Filed have whole programs: one that
--               writes a log to a buffer and reads it back through an input stream, and one that
--               writes a log to a file; Writer/FileTrip goes on to read the file back, and
--               Writer/Rounds is what these share. Runs, Trips, Wide and Samples are tests.
--   File        src/io/file.c: both file streams over a parameter that stands for stdio. File/Sink,
--               File/Source and File/Quiet make them instances of the contracts, with what the C
--               library documents of fwrite, fread and fflush as hypotheses, which keep what fwrite
--               has taken apart from what stands in the file. File/Reading has a client that opens,
--               reads and closes an input stream on a file.
--   Parser      src/core/parser.c, include/sdlog/parser.h.
--   Suite       test/: the calls of the tests, with what the definitions give for them.
--   Prelude     lists and Boolean tests over the native numbers.
-- Tests modules hold runs on concrete data and instances of the theorems.
--
-- Numbers are native naturals; a narrower type is reduced where it can wrap around: num_columns
-- modulo 2 ^ 8, the size of a format modulo 2 ^ 16, sizes of strings and of the buffer modulo
-- 2 ^ 64. Pointers have 64 bits. A string is the list of its bytes before the terminator.
--
-- Loops over an array or a string recurse on its list. The loops of ostream_write_all and
-- istream_read_exactly run on fuel, one unit a round; enough are as many units as there are bytes
-- (256 for a record of the writer, which must fit its buffer) and one for each call in which the
-- stream moves nothing: a contract bounds their number, by 0 for the streams of the library. The
-- loop of buffer_write has 64 rounds: the size doubles in each and starts at 16, and no block of
-- 2 ^ 63 bytes is granted.
--
-- Not modelled: the allocator (a parameter of the heap), the conversion of a double to a float (the
-- parameter to_float, on bit patterns), stdio (a parameter of File, with the
-- opening of a file and its size in Writer/FileTrip), the copy of Unity, and the tests as programs: Suite makes their
-- calls on the definitions.
-- Data races and the aliasing of a format that the caller changes while a writer knows it are left
-- out.
pub mod Prelude
pub mod Outcome
pub mod Memory
pub mod Model
pub mod Endianness
pub mod Encoder
pub mod Stream
pub mod Buffer
pub mod Null
pub mod File
pub mod Parser
pub mod Suite
pub mod Writer
