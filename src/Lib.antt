-- ===== src/Lib.antt =====
-- OSCam, a server that lets clients share the conditional access cards of its readers: a model of
-- the parts that decide and convert, and theorems about them.
--
-- A client asks for a control word with an ECM, which becomes a task of the client (oscam.c). The
-- cache of ECMs answers it, or readers are asked, whose answers end the task and those of other
-- clients that wait for the same ECM; what has no answer in time is given up. The access checks
-- (oscam-chk.c) decide by caid, provider, service, class and chid whether the client may have it
-- and which readers may answer; anti-cascading (oscam-ac.c) weighs the requests of a client over
-- time and denies clients that ask too much. A reader is a card behind a driver, where
-- csctapi/atr.c reads the answer to reset and csctapi/protocol_t1.c exchanges the blocks of
-- csctapi/t1_block.c, or another server, as with CCcam (module-cccam.c), with its ciphers and its
-- lists of good and bad services for a card. All parts use the conversions of oscam-simples.c,
-- which has the locks and the lists of AES keys too. Lists that threads share are those of module-
-- datastruct-llist.c, and memory that other threads may still read is given to oscam-garbage.c.
-- The load balancer (module-stat.c) keeps statistics of the answers of each reader in such lists,
-- and takes the best of the readers that may answer. The tables and structures are those of
-- globals.h.
--
-- Base: Boolean tests, lists and the laws of bit operations over native numbers.
-- Access: the structures of the checks. Services has `chk_srvid` and its kin, Classes `chk_class`,
-- Filters the client's, port's and reader's filters and `chk_ctab`, Readers `matching_reader` and
-- `emm_reader_match`. Functions keep their names; what a C function writes into the request is the
-- second part of its result.
-- Convert: Bytes, Hex, Text, Clock, Address and Serial have the functions of oscam-simples.c. A
-- buffer is a list of bytes with what lies behind the written part; a C string is the list of its
-- characters without the closing 0.
-- AntiCascade: the accounts and `ac_do_stat`; Requests has `ac_dw_weight` and `ac_chk`. Clients
-- share accounts by their place in a list.
-- Card: T1Block, T1Exchange and Atr. In T1Exchange the driver is the list of what it delivers,
-- and a read through NULL or behind a block is a result, `rsp_crash`. Allocation of a block is an argument, whether there was memory. Atr.Parse has
-- `ATR_InitFromArray` with the results ok, malformed and overrun, the last for a write behind the
-- array of rows. Atr.Values has the accessors.
-- Garbage: the collector of oscam-garbage.c over its sixteen buckets, with what was freed.
-- Cccam: Crypt has the ciphers, Sids the lists of services of a card.
-- LinkedList: the list of nodes at addresses, and its iterators. Chain has the cells that a list
-- in memory stands for; the other children have an operation each. NULL is 0, a read through no
-- node is none, and an operation runs under the lock of its list, so that it is one step.
-- Locks: `CS_MUTEX_LOCK` as counters that threads count themselves into; `advance` is one step of
-- a thread, `Step` lets any thread go on or call a lock function.
-- Balance: the settings and `calc_stat`; Stats has the list of a reader, with `get_stat` and
-- `remove_stat`, Record `add_stat`, Choice the loop of `get_best_reader` that takes readers, and
-- Selection the function around it, with the readers' statistics for the service as a function. The
-- list is its nodes in order with their flags, the view that LinkedList has of it.
-- Server: oscam.c. Cache has the ECM cache as a list of entries with their addresses, and a write
-- through a pointer to no entry is none. Tasks has the clients' tasks and counters: Answers has
-- `chk_dcw` and `write_ecm_answer`, Pending `chk_pending` and `request_cw`. GetCw has `get_cw`,
-- with the load balancer off, from its parts: Intake has the corrections and checks of a request,
-- and Tasks.Submit what follows the search for readers. A read outside an array and the end of the
-- thread of a banned client, with the addresses banned then, are results of their own there. MD5 is a parameter. What leaves this part,
-- as an answer by a client's protocol or a write to a pipe, is in a list of outputs. Packets has
-- `chk_provid` and the tunnel, Failban the addresses that are banned, and RateLimit the limit of
-- services that a card is asked for (oscam-reader.c). The locks of the lists are left out: a call
-- is one step. An address is not given again after it was freed.
-- Aes: the AES keys of a reader and the loops over blocks, with AES itself a parameter.
-- A module Tests in each part runs it on small inputs and applies its theorems to them.
--
-- Numbers are native and wrap where the C types do; what doubling a fail factor comes to when it
-- overflows is any number. Bit fields and casts are remainders. The loop
-- of `chk_class` runs on fuel of one more than the length of the ECM: every round moves on within
-- the ECM, so the fuel is enough. The rows of an answer to reset are counted down from the seven
-- that there are. A loop over a linked list has one round more than the list has nodes, and the
-- loop that takes readers one more than there are values that are not 0: each round meets another
-- node, or sets another value to 0. The loop over the descriptors of an ECM has the section's
-- length as fuel, and goes on by two bytes at least in each round. The other loops go over lists
-- or count down.
--
-- Not modelled: threads, sockets, devices, files, logging and the clock; the copied libraries in
-- cscrypt and algo; the protocol modules but for the named parts of module-cccam.c; the card
-- systems (reader-*.c), the transport T=0 and the drivers; waits for a lock that time out, in the
-- steps of Locks; in module-stat.c, the preferred card and the automatic tunnel before a reader is
-- chosen, and the file of statistics; in oscam.c, response times, the double check of control
-- words, which is not compiled in, and clients that come and go; oscam-reader.c but for the rate
-- limit; in module-datastruct-llist.c, creating and destroying a list, sorting it, and the variants
-- of its loops that compare or free data.
pub mod Access
pub mod Aes
pub mod AntiCascade
pub mod Balance
pub mod Base
pub mod Card
pub mod Cccam
pub mod Convert
pub mod Garbage
pub mod LinkedList
pub mod Locks
pub mod Server
