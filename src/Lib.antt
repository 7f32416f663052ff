-- ===== src/Lib.antt =====
-- NodeFlight firmware: the configuration of modules, their schedules and variables, and the control
-- port.
--
-- At its start the firmware reads lines of a configuration (src/core/config.c). They set up
-- peripherals with their resources (interface.c, resource.c), schedules (scheduler.c) and modules
-- (module.c), which are connected by variables (variable.c) and run by the schedules. A host
-- talks to it over a serial line, with the protocol of the control port (src/module/nfcp): packets
-- with a checksum (src/lib/crc.c), in frames (src/lib/hdlc.c), that are handed to the operations of
-- classes.
--
-- Base: shared names, Boolean tests on numbers, lists over native numbers, byte buffers and bits. A
--   load or a store out of a buffer is undefined behaviour of the source and `none` here, so that a
--   theorem that a function returns shows that it stays in its buffers.
-- Hdlc: src/lib/hdlc.c and hdlc.h. Hdlc.Spec says what a frame means, without a buffer. The loop of
--   `hdlc_frame_unstuff` runs on fuel, one more than the length of the frame; every round reads at
--   least one byte, so that it is never used up.
-- Crc: src/lib/crc.c and crc.h, by bits, bytes and the loop over the buffer.
-- Pack: src/lib/pack.h.
-- Nfcp: src/module/nfcp/nfcp.c, nfcp.h and nfcp_cls_mgmt.c. Nfcp.State has `struct nfcp_s`, the
--   mutex, the reset and the session's end; Nfcp.Packet `nfcp_tx_packet` and `nfcp_rx_packet`;
--   Nfcp.Mgmt the management class and its log handler; Nfcp.Task the tables of classes and one turn
--   of `nfcp_task`. The other modules are proofs. `rx_read` is a list of reads, each with the clock
--   before it and the bytes it brought; the loop that reads is recursion on that list, and waits
--   where the list ends. `tx_write` appends to `wire`. Whether the recursive mutex is had is an
--   argument, as is the clock of 32 bits.
--
-- Strops: src/lib/strops.c. A string is the list of its characters before the NUL. In Strops.Split a
--   line is split in its own memory, with pointers as places in it; the fuel of its loops is the size of
--   the memory. In Strops.Dup the copies go to blocks of memory, which are arguments.
-- Resource: src/core/resource.c and peripheral.c. The tables that the linker collects are lists, and
--   a pointer into one is an index.
-- Scheduler: src/core/scheduler.c. The chain of pools of a schedule is a list of lists of slots;
--   the functions of clients are known by numbers, and what a loop calls is the list of its calls.
--   Whether the mutex is had and whether there is memory are arguments. Scheduler.Define has the
--   list of schedules.
-- Map: src/lib/map.c. A map is the list of its chunks, NULL the empty one, a chunk the list of its 16
--   elements. Whether `strops_dup` and `map_create` have memory are arguments. The loop with the
--   iterator is on fuel, one more than the number of elements, of which every round but the last takes
--   one.
-- Fport: src/module/rc_io/fport.c, from a frame that is read to the outputs. A channel is the number
--   of 11 bits that `raw2float` makes a float. The folding of the checksum runs on fuel 4: three
--   rounds bring any number of 16 bits below 256.
-- Decim: the counter of src/module/scheduler/sch_decim.c, as an integer that does not wrap.
--
-- Nfcp.Cap: src/module/nfcp/nfcp_cls_cap.c. Nfcp.Put is a writer with a pointer into the transmit
--   buffer; what the linker collects, the name of the target and the clock of the core are a record
--   of tables. Nfcp.Run is `nfcp_task` as a whole: its loop is recursion on the list of what its
--   turns meet, behind the initialization of the classes; whether that has memory for the storage of
--   the management class is an argument, and without it the storage is NULL. The other classes have none.
-- Variable: src/core/variable.c and variable.h. Sources are known by their index among those that are
--   allocated; the pointers that a request asks to be set are cells of a list, and the variables are
--   numbers. Which allocations have memory is an argument.
-- Config: src/core/config.c. A line is the list of its words; in Config.Load it is split in the
--   line buffer. The lines that FatFs reads of a file are an argument, and so is which allocations have
--   memory. The loop over the queue is on fuel, since a file that includes itself is read for ever.
-- Disk: src/core/disk_access.c and disk_int.c. A disk is a record of functions over the state of its
--   storage; what FatFs does with it, and its number of volumes, are arguments.
-- Heap: src/integration/heap.c, with addresses of 32 bits. The alignment is an argument.
-- Interface: src/core/interface.c. An interface is known by its peripheral and its resources; the
--   function that initializes a peripheral is an argument, and a breakpoint is an outcome.
-- Module: src/core/module.c and module.h. Module.Init has the arguments of a module out of the words
--   of a line. The arguments of a declaration are NULL where it has none. What the functions of modules
--   return is an argument, and a breakpoint is an outcome.
--
-- Sdcard: src/module/mgmt/sdcard.c, the driver of a memory card. What the card sends is a function from
--   the place of a byte on the bus; the frames that are sent are kept, latest first. The loops that wait
--   have the 50000 iterations of the source. The loop of the negotiation has no bound there: it is on
--   fuel here, one for a round, which is enough where it is above the place from which on the card is
--   silent. The jobs
--   are run one at a time, the codes of FatFs are arguments, and so is whether a job is queued.
--
-- Not modelled: `sdcard_init`, which configures the bus, registers the disk and creates the task of the
-- card and its queue; `nfcp_init`, which configures the serial interface and creates the task, and the
-- parts of the firmware that are not named above.
pub mod Base
pub mod Config
pub mod Crc
pub mod Decim
pub mod Disk
pub mod Fport
pub mod Hdlc
pub mod Heap
pub mod Interface
pub mod Map
pub mod Module
pub mod Nfcp
pub mod Pack
pub mod Resource
pub mod Scheduler
pub mod Sdcard
pub mod Strops
pub mod Variable
