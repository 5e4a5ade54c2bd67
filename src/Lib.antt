-- ===== src/Lib.antt =====
-- A verification library for the coordinator of the mimo26 inference server: admission of requests
-- to the key-value pool, the request scheduler, phase-typed cache arms, the page table of the
-- key-value cache, drafts copied from a request's own context, and the frames and streams between
-- the coordinator and its Sparks with the sum of the Sparks' partials, the host tier of retained
-- snapshots, the row stores of the attention layers (the ring of a sliding window and the pages of
-- full attention), the set of seen tokens, and base64 image payloads.
--
-- The scheduler asks the pool to admit each request and gives its bytes back when it leaves; the
-- pager reserves the bytes of each page in a pool of its own and checks every hit against the
-- registry of arms. The copy drafts stand alone: a request owns an index and asks it for drafts
-- each round.
--
-- - Prelude and its children: library names, Boolean tests and list functions on the native
--   numbers, sums over lists, equality tests as a class, results, and laws of the operations on
--   bits.
-- - Word: u32 and u64 arithmetic with its wrap-around written out.
-- - Dict, Dict/Laws: a HashMap as an association list with one entry for each key.
-- - Pool, Pool/Bounds: crates/mimo26-coordinator/src/kv_pool.rs. `KvPool` is the struct; `admit`,
--   `grow`, `reserve_bytes` and `release` take the pool and return the next one.
-- - Scheduler and its children: crates/mimo26-coordinator/src/scheduler.rs. `submit`, `next_step`,
--   `preempt_lowest_priority` and `finish` take the scheduler and return the next one. `next_step`
--   is made of `advance` (the front of the queue) and `round` (the lanes). The loop of `chunks`
--   runs on fuel, one more than the prompt has tokens, which is enough where a chunk is not empty.
-- - Phase and its children: crates/mimo26-coordinator/src/phase.rs. Errors are values of `Result`.
-- - Pager and its children: crates/mimo26-coordinator/src/paging.rs.
-- - Copy and its children: crates/mimo26-coordinator/src/copy.rs. The loop over the grams runs on
--   the rounds left, the walk over the links on the candidates left, and the backward match on
--   EXTEND - MATCH rounds, after which its own bound stops it.
--
-- - Wire and its children: crates/mimo26-wire/src. Naive, Error and Layout are the files of those
--   names; Bytes has the little-endian fields, Row, Header, Request and Return the codecs of
--   frame.rs; Crc is crc32c.rs with the seal and the check of frame.rs; Stream is the sender, the
--   receiver and the retry loop of l4.rs, and Sum its CoordinatorSum, with the addition of f32 as
--   an argument. View is RequestView, and InPlace the return frame assembled in place, with its
--   proof. RoundTrip, Framed, Sealed, Sent, Size, Order, Delivery, Gap, Retry, Zeroed, Table,
--   Codes, Loops, Agrees, Once, Again and Hardware hold proofs. An f32 on the wire is its 32 bits.
--   The CRC intrinsics are the fields of `CrcInstructions`, and the loops over chunks and remainder
--   that call them are `update_sse42` and `update_arm_crc`. Which of the two features the machine
--   has, and the switch that turns checksums off, are the fields of `Process`, an argument of every
--   definition that uses them. The retry loop runs on fuel, one more than the attempts allowed.
--
-- - Host and its children: crates/mimo26-coordinator/src/hostcache.rs. Host has the types, the
--   order of eviction, `release`, `evict_one` and the two allocations; Capture has `capture`, cut
--   into the loop over the pages (`hold_pages`), the rows past them (`store_tail`) and the state
--   (`store_state`); Lookup has `lookup`, `lookup_for` and `restore`. Device has the operations of
--   `DeviceKv`, which call the CUDA runtime, and the hasher of the standard library is the argument
--   `lane`. A slot's bytes are a function of the slot. The loops of the allocations run on fuel,
--   one more than there are snapshots, each round of which evicts one. Counts, Remove, Evict,
--   Alloc, Victim, Hold, Kept, Whole, Leak, Chain, Longest and Usable hold proofs.
-- - BitOr: laws of inclusive or. Image/Base64 and its children: crates/mimo26-image/src/base64.rs.
--   The loops that fill the table run on the rounds left.
-- - Sampler and its children: `SeenSet` of crates/mimo26-coordinator/src/sampler.rs. A failed
--   assertion, at which the source panics, is `none`.
--
-- - Int: signed integers over the natural numbers, and i64 arithmetic with its wrap-around.
-- - Attn and its children: crates/mimo26-attn/src/cache.rs. Rows is `RowStore` (with the sizes of
--   an encoded row), Ring is `SwaRing` (its `append` is cut into `append_batch`, `store_batch` and
--   `evict_front`), Paged is `GaPaged` (its `append` is `append_paged`, with `append_round` for one
--   round; its `rows_range` is `paged_range`). f32 arithmetic and the FP8 codec made of it are the
--   fields of `Floats`, an argument of every definition that uses them. The binary search runs on
--   fuel, the length of the list, and the loops over pages on the rows left. Bound, Evicted,
--   Appended, Stored, Pages, Flat, Room, Round, Extended, Located and Read hold proofs.
--
-- The file Tests.antt of a component, and Checksums, Streams and Sums below that of Wire, evaluates
-- its definitions on concrete inputs.
--
-- Numbers are natural numbers; where the source adds or multiplies u64 values the result is taken
-- modulo 2 ^ 64 as a release build does; the sizes and indexes of vectors held in memory do not
-- reach that bound and are not wrapped. Not modelled: the forward pass and the kernels (floating
-- point and CUDA), sockets, files and HTTP, the in-place request encoders, and the other crates of
-- the workspace.
mod Prelude
pub mod Word
pub mod Dict
pub mod Pool
pub mod Scheduler
pub mod Phase
pub mod Pager
pub mod Copy
pub mod Wire
pub mod Host
pub mod BitOr
pub mod Image
pub mod Sampler
pub mod Int
pub mod Attn
