-- ===== src/Lib.antt =====
-- blockrouter routes block-game traffic: bytes arrive in buffers, are framed by a length prefix,
-- inflated, and handed on as packets. This library models the parts below and proves what makes
-- them correct. Paths are from the repository's root.
--
-- Parts and files
--   src/cursor.rs      `DirectBuf` is the interface `DirectBuf`; `Cursor` and `Multibytes` are
--                      `Cursor` (its children hold the proofs: `Position` for byte positions,
--                      `TrueUp`, `Measure`, `Split`, `Front`, `Vectored`, `Read`);
--                      `MultibytesView` is `Cursor.View`, `IndexedMultibytes` is `Cursor.Indexed`.
--   src/direct.rs      repeats the traits of src/cursor.rs; the interface stands for both, and
--                      `Readers.Owned` has the implementations for `Bytes` and `BytesMut`.
--   src/parser.rs      `varint` and `varlong` are `Parser`; `Parser.Scan` is the format they decode,
--                      `Parser.Decode` the proof, `Parser.RoundTrip` the encodings.
--   src/framer.rs      `Framer` is `Framer`; `Framer.Stream` says what is owed for a stream of
--                      bytes, `Framer.Refines` and `Framer.Header` compare `frame` with it,
--                      `Framer.Push` and `Framer.Session` are about calls in a row;
--                      `Framer.Wrapped` is what a sender writes, `Framer.Receiver` a receiver that
--                      pushes and calls as it likes, and `Framer.Framed` a frame for its reader.
--   src/ring.rs        the buffer of `FramedRing` is `Ring`, its frames are `Ring.Frames`;
--                      `Ring.Growth` is about the growing buffer, `Ring.Contents` about what a frame
--                      holds, `Ring.Filling`, `Ring.Drops` and `Ring.Sessions` about its life.
--   src/packet.rs      `FragmentPool` is `Fragments`, a stack by `Fragments.Stack`;
--                      `Fragments.Sessions` is about calls in a row.
--   src/zlib.rs        the error codes, the flush modes, the construction of streams and the
--                      operators are `Zlib`.
--   src/compress.rs    `MbZlibOp::process` is `Compress`; `Compress.Streams` says what it should
--                      return, `Compress.Rounds`, `Compress.Steps` and `Compress.Run` follow its
--                      rounds; `Compress.Spins` is about a stream that has ended,
--                      `Compress.Copy` and `Compress.Ending` are operators to try it on,
--                      `Compress.RoundTrip` has a deflater and an inflater at two ends,
--                      `Compress.Constructors` is about the constructors.
--   src/mbedtls.rs     `AesCryptCfb8` and, of src/crypto.rs, `Cryptor` are `Crypto`; `Crypto.Channel`
--                      is about the two ends of a connection. `Crypto.Placed` is the same code with
--                      the address of the context, and `Crypto.Moves` compares the two.
--   src/inflater.rs    `PacketInflater` is `Inflater`, over `Parser`, `Cursor` and `Compress`;
--                      `Inflater.Pages`, `Inflater.Unpacks` and `Inflater.Mode` are about its
--                      calls, `Inflater.Arrives` follows a packet from a deflater through a
--                      framer and an inflater.
--   src/mempool.rs     `Part` is `Mempool.Part`, over the bytes of `Mempool.Memory`; `Mempool.Shares`
--                      is about the parts that are alive and the counts of their slices.
--                      `GlobalMemPool` with the cache of the one thread that uses it is
--                      `Mempool.Pool`, and `Mempool.Pool.Worlds` is that pool with its memory and
--                      its parts. `Mempool.Threads` is the pool with many threads, one atomic
--                      access a turn.
--   src/socket.rs      `ConnectionSource::read` and `ConnectionSink::write` are `Socket`.
--   `Readers` joins the views to the parsers, and `Prelude` holds the shared names and lemmas.
--
-- How the code corresponds
--   A method on `&mut self` returns the new value, a panic is `none` or a `panicked` result, and
--   an error of the source is a constructor of a result type. A buffer is a value of the interface
--   `DirectBuf`, whose laws say that it is one contiguous chunk which is split and cut inside its
--   length. `Buf::get_u8` belongs to the `bytes` crate: `Buf` takes it as a parameter with its
--   documented behaviour. `usize` has 64 bits and its additions wrap as in a release build; where
--   a statement bounds the sizes, nothing wraps and a debug build does the same. An `i32` is its
--   bit pattern.
--
-- Loops and fuel
--   The loops over pages recur on the list of pages. The decoding loop of the parsers takes
--   `max_shift + 1` rounds of fuel: each round adds 7 to the shift, which ends the loop once it
--   passes `max_shift`.
--   The loop of a frame's `drop` over headers never moves, so that its third round would be as the
--   second; two rounds are the fuel.
--   The loop of `MbZlibOp::process` takes fuel; the calls that the operator has to make and the
--   number of pages bound its rounds, as long as the operator's stream does not end within them.
--   The loop of `allocate_global` takes fuel, and is `spinning` without; one round is enough for a
--   thread alone. With threads each round is turns of its own, without fuel.
--   The loop of `ConnectionSink::write` takes fuel, one round for each byte at most, as long as each
--   write takes a byte.
--   The ring's indices are not wrapped at 64 bits, which no buffer in memory reaches.
--
-- Not modelled
--   The zlib library is a parameter, with what it documents of a call as hypotheses: a call that
--   returns Z_OK makes progress. A stream that has ended, or asks for a dictionary, need not. An
--   allocator whose buffers differ in length is left out; those of src/mempool.rs give buffers of
--   one length. mbedtls is a parameter too; `Drop` of a stream and of a context only frees what the
--   library holds. Memory mappings are a parameter, on the length that is
--   asked for and the number of the call of `map_anon`; a shift by 64 bits or more is left out.
--   The queue and the counter of the pool are atomic, as their crates document; memory orderings,
--   and the bytes and the count of a slice while threads interleave, are left out, and so is the
--   pointer from a part to its pool. So a `drop` among threads is its call of `reclaim`, of any slice
--   and at any time. tokio's halves of a stream are a parameter.
--   src/lib.rs and build.rs have no logic. `Bytes` and `BytesMut` belong to the
--   `bytes` crate, a parameter. `VecDeque::with_capacity` only reserves room.
pub mod Prelude
pub mod DirectBuf
pub mod Buf
pub mod Cursor
pub mod Parser
pub mod Readers
pub mod Framer
pub mod Ring
pub mod Fragments
pub mod Zlib
pub mod Compress
pub mod Crypto
pub mod Inflater
pub mod Mempool
pub mod Socket
