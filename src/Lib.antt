-- ===== src/Lib.antt =====
-- The core of the RTC test bench: two programs, `reference` and `mirror`, that exchange frames in
-- each cycle of a real-time network, and measure how long the frames take and what goes wrong. The
-- reference generates frames of up to nine traffic classes, numbers and stamps them, and checks
-- those that come back; the mirror turns received frames into answers. Each class has threads for
-- reception and transmission that share a ring buffer (mirror), a backlog of time stamps
-- (reference) and the statistics.
--
-- The parts, and where they are:
--   Types       the enumerations and the configuration of src/stat.h, src/security.h and
--               src/config.h: what the modelled code reads of them
--   Bytes       fields of packed structs: big-endian loads and stores in a list of bytes
--   RingBuffer  src/ring_buffer.c; pointers are offsets, the mutex makes each operation one step
--   Frame       src/utils.c, src/utils.h and src/net_def.h: meta data, VLAN tags, addresses and
--               the initial vectors of the ciphers
--   Time        src/utils.c and src/tx_time.c: periods, start times and launch times
--   Hist        src/hist.c: the histogram of round trip times
--   Stat        src/stat.c: counters, backlog, latencies, collection intervals, workload
--   Rx          the frames and the receive handlers of src/layer2_thread.c, src/lldp_thread.c and
--               src/ethercat.c, which report each frame to Stat and queue its answer in RingBuffer.
--               Rx.Profinet has the frames and the handler of src/profinet.c, with the cipher of
--               src/security.c, which is OpenSSL's, as a parameter (`Cipher`, `IsAead`)
--   Tx          src/utils.c: the preparation of frames for transmission, up to the receiver
--   Packet      src/packet.c: the hand-over of frames to a packet socket
--   Tc          src/tc.c: the Tx thread of a class and the thread that generates its bursts
--   Udp         src/udp_thread.c: the datagrams and their reception
--   Setup       src/tc.c and src/udp_thread.c: what the set-up of the threads acquires, and the
--               clean-up behind a failure and at the end
--   Workload    src/workload.c: the flags of the workload threads
--   Links       src/thread.c: the order in which the threads of PROFINET classes wake each other
--   Config      src/config.c: the values of options as they are read, and the check that a
--               configuration passes before any thread starts
--   Xdp         src/xdp_kern_*.c: which frames leave the kernel's path for the sockets
--   Base        lists over the native numbers, machine words, signed integers, Boolean tests
--   Tests       the model at concrete inputs
--
-- How the code is modelled. A struct is a record with the source's members, a function a function
-- with the members that it changes as arguments and results, a static array over the classes a
-- function of the class. A frame is the list of the bytes of its buffer with the length received
-- beside it. Words are natural numbers with the wrap-around written out (`u16`, `u32`, `u64`,
-- `sub64`). Clocks, the results of allocations, the maps of the kernel and the time stamps of the
-- drivers are arguments. `double` is a type with its operations as a parameter (`DoubleOps`), and
-- MAX_FRAME_SIZE, a macro of libxdp, is the argument `max_frame_size`. Messages are left out.
--
-- Loops are recursion on a list or on fuel. Four have fuel: the carry of increment_period, which
-- needs one step for each second of the sum; the loop over the cycles of a batch in
-- stat_frames_sent_batch, for which more than the frames of the batch and of a cycle is enough;
-- the batches of packet_send_messages, for which as much as there are frames is; and the search
-- for the last thread in link_pn_threads, for which 8, the number of threads, is. A call that does not
-- come back, such as packet_send_messages while sendmmsg takes nothing, has no result. What a thread
-- meets in a cycle is an argument (`Events`): the result of its wait, the answers of
-- clock_nanosleep and sendmmsg, the clock. A run of two threads is a sequence of their steps in any
-- order (`Run`); a set-up is a log of the resources that it acquires and releases.
--
-- Not modelled: the Rx threads of src/tc.c and its threads with XDP, the start of the workload
-- threads in src/workload.c, the YAML events of a configuration, and all that only
-- calls the system or a library (AF_XDP, netlink, OpenSSL, logs, MQTT) or prints. Reads past the
-- end of a frame's buffer give 0 in the model, which the code's checks and the configuration check
-- exclude.
pub mod Base
pub mod Bytes
pub mod Config
pub mod Frame
pub mod Hist
pub mod Links
pub mod Packet
pub mod RingBuffer
pub mod Rx
pub mod Setup
pub mod Stat
pub mod Tc
pub mod Tests
pub mod Time
pub mod Tx
pub mod Types
pub mod Udp
pub mod Workload
pub mod Xdp
