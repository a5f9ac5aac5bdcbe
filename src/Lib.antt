-- ===== src/Lib.antt =====
-- The libraries of FIPS-IPC that pass log messages between processes and count the addresses in
-- them: a ring buffer in shared memory with one writer and several readers (src/lib/shm_ringbuf.c),
-- its successor with one ring for each writer thread, which is used in place (src/lib/fips_buf.c),
-- and the table of counters by which the intrusion prevention program decides whom to ban
-- (src/lib/ip_hashtable.c), the list of those that are banned (src/lib/ip_llist.c), the decisions
-- themselves (src/programs/sf2b), the reading of lines from a log file (src/lib/uring_getline.c),
-- the function by which a server logs into a ring (src/lib/syslog.c), with the conversion of
-- addresses to text (src/lib/ip_to_str.c) and the filter in the kernel that drops the packets of
-- banned addresses (src/lib/ip_blacklist.bpf.c). A program that serves writes its log lines into a
-- ring; the threads of the prevention program poll their segments of it, parse out the addresses
-- and count them in the table; at the limit an address goes to the list and to a map of the kernel,
-- by which the filter drops its packets, until the unbanning thread takes it off again.
--
-- The files:
-- * Prelude passes library names on; Prelude/Tests, Prelude/Lists and Prelude/Wrap have the tests
--   on numbers, lists measured by them, and indices of a ring.
-- * Broadcast is the abstract view of a ring: a queue of lines for each reader, to all of which a
--   line goes, or to none.
-- * ShmRing has the data of shm_ringbuf.h, and below it Write, Read, Writev and Readv are
--   `shmrbuf_write`, `shmrbuf_read`, `shmrbuf_writev` and `shmrbuf_readv`, each split into the
--   checks of its arguments and its body on one segment; Line is the copying of one line; Range and
--   RangeV are `shmrbuf_read_rng` and `shmrbuf_readv_rng`; Init, InitWriter and InitReader are
--   `shmrbuf_init`, `shmrbuf_finalize`, `shm_cleanup` and `get_hdr_checksum`. Window and Invariant
--   tell what a reader has still to read. The files in Laws, Publish, Wrap, Runs, Loop and Calls
--   hold the proofs, Examples a ring on which they apply.
-- * HashTable has the data of ip_hashtable.h, Ops `ip_hashtable_insert`, `_remove` and `_set`,
--   Setup `_init` and `_destroy`, Chains the loops over a bin; Lookup, Counters, Invariant,
--   Defined, Clearing and SearchTime hold the proofs, Examples a table.
-- * FipsBuf has the data of fips_buf.h, Ring `fips_get_write_buffer`, `fips_buf_write` and the
--   round of `fips_buf_read` on one segment, Layout `calculate_shared_memory_size`,
--   `calc_checksum`, `setup_shm` and the macros for offsets, Assign the thread counts and
--   `reassign_readers`, Cache `update_cached_reader_values` and `remove_cached_entries`, Attach
--   `fips_buf_attach`, Detach `add_flag_affected_readers`, `fips_buf_detach` and
--   `fips_buf_destroy`; Rotation is `fips_buf_read` over the segments that a thread keeps, Returns
--   is `fips_buf_list_add_sqe` and `fips_buf_return`, and Waiting a description of what they do on
--   the list of ranges alone; RotationLaws, Place, ReturnsLaws, ReturnOrder, ReturnAll, ReadReturn,
--   RingLaws, LayoutLaws, Portions, AssignLaws and AttachLaws hold the proofs, Examples and
--   ReturnExamples a buffer.
-- * Xdp has the maps and the reads of ip_blacklist.bpf.c, Eth `parse_eth`, Filter the other
--   functions; Frames and Chain write out Ethernet frames and chains of IPv6 extension headers,
--   Reads, Bounds, Verdicts and Ipv6 hold the proofs, Examples frames.
-- * LinkedList has the heap of nodes and the operations of ip_llist.c; Chain, Loops and Laws hold
--   the proofs, Examples a list.
-- * UringGetline has below it Line, which is `_rdline` of uring_getline.c, and File, the two
--   buffers of `uring_getline` and `uring_getlines`; Split and Equivalence hold the proofs,
--   Examples a block.
-- * Syslog is `syslog` of src/lib/syslog.c, on the ring of ShmRing, and the line of its build
--   without copies; Syslog.ZeroCopy is this build, on a segment of FipsBuf, ZeroCopyLaws holds its
--   proofs and Examples a thread.
-- * Sf2b has below it Args, which is `parse_arg` of src/programs/sf2b/main.c, Unban, which is
--   `get_unban_list` and the rounds of `unban_thread_routine`, Ban and BanBinary, which are
--   `ban_clients` of string.c and of binary.c, Parse, which is `parse_str` and
--   `regex_match_handler` of string.c, BanThread, which is its `ban_thread_routine`, IpcFips, which
--   is `get_lines_ipc` and `return_lines_ipc` of fips_buf.c with the round that calls them, and
--   Segments, which is `init_thread_ipc` of shmrbuf.c; UnbanList, UnbanLoop, UnbanLaws, BanLaws,
--   BanLimit, BanThreadLaws, ParseLaws, IpcFipsLaws and ArgsLaws hold the proofs, Examples a server
--   and IpcFipsExamples a thread with its buffer.
-- * IpToStr has `ipv4_to_str`, V6 `ipv6_to_str` and `ipv6_to_str_fancy`, Decimal and HexPairs
--   readers for their results and the proofs, Examples two addresses.
--
-- How code and model correspond: a C array is a list, or a function of the index for the bins of
-- the table; a null pointer is `none`; an error code is a constructor, or a negative `int` in the
-- table. The data of a shared memory segment is the list of its lines, as many as lie within the
-- bytes that a new memory has for them, so the offset `write_index * line_size` of a line is taken
-- not to wrap. A loop is a recursion on the rounds left, or on the list it goes over; only the
-- loops over nodes on the heap and over ranges that wait, and the calls for the lines of a block,
-- have a bound, and the results about them say which bound is enough. Commands on the heap are
-- `none` for undefined behaviour. What the operating system answers in a call (keys, attachments,
-- allocations, locks) is an argument of it: `Kernel`, `Mutex`, `Env`, `Grants`, `Grant`, and
-- `Uring` for io_uring. A packet is the list of its bytes, and a read behind its end is `none`. The
-- maps of the kernel are functions from keys to the answers of a lookup in the filter, and the
-- parameter `Bpf` in the prevention program; the calls of Hyperscan, `inet_pton` and `strptime` are
-- its parameter `Text`. The memory behind a segment, which `shmrbuf_readv` can reach, is the
-- argument `Beyond`, and that behind the assignments of threads is the argument `Behind`. The sizes
-- that the compiler gives to structures are the argument `Sizes`. Indices, sizes and counters wrap
-- as their C types do where a bound does not exclude it; `IsSmall` states the bounds of a line size
-- and of a count of lines (2^16 and 2^31). Times are natural numbers, and bytes of an address are
-- read little-endian.
--
-- Not modelled: a call is one step, so that the loads and stores of concurrent calls do not
-- interleave within it; of fips_buf.c the configuration; of sf2b the expressions that Hyperscan
-- matches, the build with gRPC, set-up and printing; the other libraries of src/lib and the other
-- programs.
pub mod Prelude
pub mod Broadcast
pub mod FipsBuf
pub mod HashTable
pub mod IpToStr
pub mod LinkedList
pub mod Sf2b
pub mod ShmRing
pub mod Syslog
pub mod UringGetline
pub mod Xdp
