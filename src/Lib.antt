-- ===== src/Lib.antt =====
-- The platform-independent core of the LLTD responder (lltdResponder/): the automata, the session
-- table and the timers of lltdAutomata.c, and the frame handlers of lltdBlock.c with the code that
-- they write frames with. Of the code around it, the loops of three daemons, two of the ports, and the
-- inference of Wi-Fi rates.
--
-- How the program works: a daemon of os/ reads frames from an interface and hands each one to
-- `parseFrame`, which answers through the functions of lltdPort.h; beside this it feeds the three
-- automata and calls `automata_tick` at intervals, which expires sessions and sends periodic Hellos.
--
-- Which file models what:
--   Base         numbers, lists, integers of fixed width, and memory as a list of bytes, where an
--                access outside the block is `none`
--   Protocol     the numbers of lltdResponder/lltdProtocol.h
--   Wire         lltdEndian.h (Endian), addresses (Address), and lltdWire.c (Header), with the
--                header as a record of fields (Header.Layout)
--   Automata     lltdAutomata.c: the tables and the switch functions (Machine, with a diagram for
--                each automaton), the session table (Sessions), the timers (Band), the events
--                (Events) and `automata_tick` (Tick)
--   Port         lltdPort.h: what the platform answers, and the effects that handlers have on it;
--                os/linux/lltd_port.c (Linux) and os/posix/lltd_port.c (Posix), with the results of
--                the system's calls as parameters
--   Tlv          lltdTlvOps.c, one function for each property of a Hello frame
--   Responder    lltdBlock.c: the state of an interface and the monad of the handlers (State), and a
--                module for each handler; `parse_frame` stands in Dispatch; Total is about
--                accesses outside a buffer, Isolated about several interfaces
--   Wifi         os/darwin/daemon/lltd_wifi_rates.c: the tables, the rate of a combination, and the
--                search for the combination that fits an observed rate
--   Daemon       os/darwin/daemon/darwin-main.c: `lltdLoop` from the call of `recvfrom` on (Darwin)
--                and `sendHelloMessageEx` (Darwin.Hello, Darwin.Periodic); Darwin.Reach has what the loop reaches;
--                os/esp32/daemon/lltd_esp32.c and the body of the loop of
--                os/esxi/daemon/esxi-main.c (Plain)
--   Examples     the theorems at concrete inputs
--
-- How the code is represented. A function of the source has the same name in lower case with
-- underscores (`parseQueryLargeTlv` is `parse_query_large_tlv`). Numbers are natural numbers, and
-- every operation that can wrap is followed by `u8`, `u16`, `u32` or `u64`. A pointer that may be
-- null is an `Option`; a pointer to a slot of the session table is the index of the slot. A reading
-- of the clock is an argument, or an element of a list of readings. A handler maps the state of its
-- interface and the effects so far to a result, a state and more effects; it gives `none` when it
-- would read or write outside a block of memory. The endianness of the host is a parameter.
--
-- Loops are recursion on lists or on the number of turns, which is the bound of the loop in the
-- source. A switch of the mapping or session automaton calls itself again after a timeout and takes
-- one reading of the clock for each call; two readings are enough, for the session automaton as long
-- as they are at most a second apart. `fetch`, which stands for a mapper, has a number of questions
-- as its bound; the number of chunks of the property is enough.
--
-- What the code relies on. A frame is the content of the receive buffer, and the theorems that
-- exclude faults ask for 36 bytes of it, for its station list or Emit list to lie inside it, and for
-- an MTU of at least 206, which is enough for the largest Hello. `Documented` says what a platform
-- promises: a call that fills a buffer returns the length of what it stores, and an IPv6 address has
-- 16 bytes. The search for Wi-Fi parameters asks for an observed rate that is not within 10000 of the
-- least `int` and a tolerance below the greatest one: beyond these its sums overflow, which is a fault
-- of the model. The diagrams of the automata are those of the tables of the source, from which the
-- documents under Documentation differ in places. The allocations at the start of a Darwin interface succeed, except for that of the table.
--
-- Not modelled: logging; the discovery of interfaces, the sockets and the threads of the daemons, and
-- the ports that call frameworks of their platform, which stand behind the record `Port`; the tests
-- and tools; the builds with LLTD_TESTING.
pub mod Base
pub mod Protocol
pub mod Wire
pub mod Automata
pub mod Port
pub mod Tlv
pub mod Responder
pub mod Wifi
pub mod Daemon
pub mod Examples
