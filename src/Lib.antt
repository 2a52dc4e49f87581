-- ===== src/Lib.antt =====
-- CycFlow: a library that carries fixed-size records from writers to readers through a ring in memory.
--
-- The parts, from below:
--   Base       what the modules share: the native naturals, Boolean tests, lists, and arithmetic modulo
--              2^64 (Words) for size_t and uint64_t.
--   Ring       CircularBuffer of CycLib/Core/CircularBuffer.h. Its child Inv has the invariant, Window,
--              Push, PushMany and Peek relate the bulk copies to the contents `toStdVector`, Refine does
--              the operations on one element and `pop_many`, Resize `reserve`, `clear` and the copy.
--   Chunk      DynamicChunkBuffer of CycLib/Core/DynamicChunkBuffer.h: chunks of one size in a ring of
--              bytes. Inv is about head, size and capacity in whole chunks, Log relates the buffer
--              to all that was ever pushed, Read has the three ways to read.
--   Text       byte strings, and what the source uses of std::string, strncpy and std::stoul; Decimal
--              has numbers in decimal, Fields what std::getline makes of a text.
--   DataType   the element types of CycLib/Core/Common.h and Common.cpp.
--   PReg       the registry of names of CycLib/Core/PReg.cpp; Threads has its interleavings.
--   PAttr      fields and their named bits, CycLib/Core/PAttr.cpp. An exception is an `err`, and
--              so is a write outside a vector. Bits is about where bits are written.
--   RecRule    the layout of a record and its caches, CycLib/Core/RecRule.cpp and RecRule.h. Layout and
--              Aligned are about `lay_out`, Lookup and Init about the caches. TextForm is `toText` and
--              `fromText`; of its children, RoundTrip, Reread and Same are about what comes back,
--              Columns and Rebuilt about the named bits in it.
--   RecBuffer  CycLib/Core/RecBuffer.cpp: records in a chunk buffer, read by global cursors, and the list
--              of clients that hold writers back. Read, Space and Clients are about these three.
--   ReaderZc   RecordReaderZC of CycLib/RecordReaderZC.cpp with CycLib/RecordReaderBase.cpp. Batch says
--              what one batch is, Delivery has the reader among other threads as a step relation.
--   Reader     RecordReader of CycLib/RecordReader.cpp: two buffers, a worker and a user. Threads has its
--              step relation; Invariant, Others, Worker, Fetch and User are about its steps, Order
--              about whole runs.
--   WriterZc   RecordWriterZC of CycLib/RecordWriterZC.cpp with CycLib/RecordWriterBase.cpp. Loop
--              and Commit are about the push loop of a batch, round by round, Single about the wait
--              and the push of a single record.
--   Writer     RecordWriter of CycLib/RecordWriter.cpp: two buffers, a user and a worker that pushes.
--              Threads has its step relation, Invariant the user's steps, Worker the worker's, Order
--              whole runs; Bytes is about the copies and stamps.
--   Cbf        CbfFile of CycLib/Cbf/CbfFile.cpp with CbfDefs.h, over std::fstream as Fstream has it.
--              Bytes is about headers in memory, Written about the file that a row of calls leaves.
--              Output is CbfWriter of CycLib/Cbf/CbfWriter.cpp, its files in Recording and Files; Input
--              is CbfReader of CycLib/Cbf/CbfReader.cpp, with Sections, Batches and Fuel; RoundTrip
--              joins the two.
--   Record     CycLib/Core/Record.cpp: a record's memory and its named bits.
--   Consumer   RecordConsumer of CycLib/RecordConsumer.cpp, over interfaces of its reader and its derived
--              class; Hooks is about the worker loop, Cbf.Output.Consuming joins it with CbfWriter.
--   Producer   RecordProducer of CycLib/RecordProducer.cpp, over interfaces of its writer and its derived
--              class; Once is about its buffer.
--   Tcp        the messages of CycLib/Tcp/MessageUtils.h and TcpDefs.h over the reads and writes of asio;
--              Message sends and receives one, Accept is about any that is received.
--   Tests      small runs, and each theorem at a concrete input.
--
-- A RecBuffer owns a Chunk buffer, which owns a Ring of bytes; a RecRule says how large its records
-- are. Writers push into the RecBuffer, readers register as its clients and follow it with a cursor
-- that counts all records ever written. The ring overwrites the oldest record when it is full, so a
-- writer that wants to lose nothing first asks for the space that the slowest client leaves.
--
-- State is passed explicitly. A function under a lock is one step; where threads interleave, the
-- steps are an indexed data type. Operations on size_t and uint64_t wrap at 2^64 (add64, sub64,
-- mul64), and the theorems say which sums must not. Capacities are at most 2^63 - 1, the largest
-- object. Loops are recursion on lists or on the count. The push loop of the writer runs for as
-- many rounds as it is given, since its length is up to other threads; `served` counts the rounds
-- that can push. Asserted preconditions are hypotheses. Memory behind a pointer is the list of
-- objects from it on, and a pointer into the ring is its slot.
--
-- The loops of CbfReader over section headers run on fuel, one turn more than the file has bytes; each
-- turn reads a header of 24 bytes, so that is enough (Cbf.Input.Fuel). The writes of std::fstream do
-- not fail, and a file's contents are its stream's while it is open.
--
-- Not modelled: the shutdown of the buffered writer and the stop of the buffered reader, the accessors
-- of Record by value, the CSV part and the TCP services of CycLib, and the logger; the Qt programs
-- (ChartWidget, CbfView, CycBufReceiver) and CycTestServer.
pub mod Base
pub mod Ring
pub mod Chunk
pub mod Text
pub mod DataType
pub mod PReg
pub mod PAttr
pub mod RecRule
pub mod RecBuffer
pub mod ReaderZc
pub mod WriterZc
pub mod Reader
pub mod Writer
pub mod Cbf
pub mod Record
pub mod Consumer
pub mod Producer
pub mod Tcp
mod Tests
