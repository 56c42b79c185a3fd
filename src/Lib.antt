-- ===== src/Lib.antt =====
-- A model of etar, a reader, writer and validator of tar and tar.zst archives over asynchronous
-- byte streams, with the theorems about it.
--
-- The program. A reader is a stack of layers around the caller's source: `Meter` (src/open.rs)
-- counts the encoded bytes; the decoder that `decoded` (src/compress.rs) selects by the first
-- bytes; `Cap` (src/open.rs) bounds the decoded bytes and the decompression ratio; `HeaderGuard`
-- (src/guard.rs) follows the tar headers and refuses an extension record that is too large; the
-- tar parser of tokio_tar; and `Reader` (src/reader.rs), which lends one entry at a time.
-- `open_entry` (src/open.rs) checks each entry against the limits (src/limits.rs) and the path
-- rules (src/entry.rs), and puts `Bounded` around its body. The layers share two counts and a
-- flag, which are atomics. A writer (src/writer.rs) hands entries to `append` (src/pack.rs), which
-- writes them through the tar builder, with `Exact` around a file's body.
--
-- The files. Io models `AsyncRead`: a layer is a function from its state, the shared atomics and
-- the caller's buffer to all three afterwards and what the poll returned, `drain` is a caller that
-- polls it with buffers of given sizes, and `until_error` is one that goes no further than an
-- error. Io/Contract states what tokio documents of a reader, Io/Await is a read that is awaited,
-- Io/Log and Io/Reads give a reader a history. Errors, Settings, Limits and Entry are the files of
-- src of those names. Open/Meter, Open/Bounded, Open/Cap and Open/OpenEntry are the parts of
-- src/open.rs. Guard and Guard/Reading are the state and the methods of `HeaderGuard`, Guard/Pax
-- the parser of a PAX body, and Guard/Framing a description of the format on whole members,
-- without buffers or polls, that the guard follows. Compress is src/compress.rs, Pack, Pack/Body
-- and Pack/Builder are src/pack.rs, Writer is src/writer.rs, and Reader, Reader/Open, Reader/Body,
-- Reader/Validate and Reader/Validate/Source are src/reader.rs. The modules below these hold the
-- proofs; Pack/Recorded puts a record of what it is given beside a tar builder. Reader/Session is
-- a client that calls the reader and polls what it is lent in any order. Tests holds runs at
-- concrete inputs, and Tests/UnitTests the unit tests of src/entry.rs, src/limits.rs and
-- src/compress.rs that need no tar library or encoder; Entry/Joined holds the two property tests
-- of src/entry.rs.
--
-- Parameters. Code outside src is a parameter: the source and the decoders are readers, of which
-- some theorems assume the contract of Io/Contract; `Header::size` of tokio_tar is `header_size`;
-- the constructors of the decoders and of the archive are a record of functions; the tar parser
-- and the tar builder are records of operations; the encoder and the sink are functions. Paths are
-- lists of bytes, as on Unix.
--
-- Machine integers. The counts wrap around modulo 2 ^ 64 (`fetch_add`), saturate
-- (`saturating_add`, `saturating_mul`) or are checked (`checked_add`, `checked_mul`) as they are
-- in the code; an addition that would overflow in a debug build wraps around, as in a release
-- build.
--
-- Fuel. The loop that fills a header has 512 rounds, since every round but the last reads a byte;
-- the loop of `parse_pax_size` has one round for each byte of its body, since a record takes a
-- byte at least; the peek has one round for each byte that it wants. An awaited read takes
-- `patience` polls and the loop at the end of an archive takes `rounds` reads: these are the
-- caller's, who drops the future behind them, and a dropped future is `none`. `validate` has fuel
-- for its calls of `next_entry`, of which it needs one more than `max_entries`.
--
-- Not modelled: wakers and threads, since the reader and the writer are used by one task at a
-- time; the display strings of errors; benchmarks, fuzz targets and scripts; and the unit tests
-- that run the tar library or the zstd encoder, which are parameters.
pub mod Prelude
pub mod Errors
pub mod Settings
pub mod Limits
pub mod Entry
pub mod Io
pub mod Open
pub mod Guard
pub mod Pack
pub mod Writer
pub mod Reader
pub mod Compress
pub mod Tests
