-- ===== src/Lib.antt =====
-- The M-Bus side of a Bluetooth adapter that stands in for the CD changer of a car radio.
-- The program takes bits off a bus by polling, makes nibbles, messages and commands of them, and
-- sends messages back the same way; a second driver talks to the Bluetooth module over a serial line.
--
-- Fifo       common/fifo.c, common/fifo.h: the ring buffer under every queue. `Queue` is the bounded
--            queue that it promises; Fifo/Inv has its invariant, Fifo/Refine the refinement, Fifo/Many
--            several pushes in a row, Fifo/Trace scripts of calls.
-- Phy        common/mbus/mbus_phy.c, common/mbus/mbus_phy.h: the state machines that are polled with
--            the time and the level of the pin. Phy/Rx is `_mbus_phy_rx_update`, Phy/Tx is
--            `_mbus_phy_tx_update`, Phy/Join the structure that holds both with its functions
--            (`mbus_phy_*`), Phy/Ascii the two character tables, Phy/Loop a transmitter and a receiver on
--            one bus. The receiver fills a FIFO of nibbles and codes, the transmitter empties one.
-- Link       common/mbus/mbus_link.c, common/mbus/mbus_link.h: Link/Parse and Link/Body are
--            `mbus_link_parseMsg`, Link/Build what each `mbus_link_tx_*` function packs, Link/Core the
--            structure with `mbus_link_update` and `mbus_link_rx_push_nibble`. The link takes the
--            nibbles that the receiver queued, and pushes into the FIFO of the transmitter. Link/Print
--            is `mbus_link_msgToStr`, the text of a message in a buffer of the caller;
--            Link/Parse/Typed and Link/Parse/Stages are about the messages that parsing makes.
-- Bus        both layers on both sides of the bus: a message from the queue of one link to that of
--            another.
-- Rn52       common/rn52/rn52.c, common/rn52/rn52.h: the driver of the Bluetooth module. Rn52/Update is
--            `rn52_update`, Rn52/Commands the queue of commands that `rn52_avrcp_*` fill, Rn52/Chars
--            the digits and the functions of the C library on its two buffers, of which Rn52/Text says
--            what they do; Rn52/Asked is about the commands that the application queues.
-- App        target_teensy3/src/app_demo.cpp: the adapter as a CD changer. App/Decode is
--            `app_decode_push_mbus_msg`, App/Update is `app_update`: it takes messages from the link,
--            queues commands for the driver, and has the link send what a playing changer would.
--            App/Main is `main`: the set-up and one round of the loop, with the receiver's nibbles
--            handed to the link, the transmitter switched with the link's direction, and the driver
--            polled. App/Main/Safety has the machines that it can reach.
-- Demos      target_teensy3/src/mbus_msg_ping_reply.cpp and mbus_msg_sniffer.cpp: Demos/Station has what
--            the two programs share (Demos/Station/Heard what a round of either hears), Demos/Ping and Demos/Sniffer a round of each. Demos/Bridge
--            is mbus_nibble_bridge.cpp, with its line of typed digits; Demos/Toggle is
--            app_demo_toggle_sniffer.cpp, with its answers to the head unit.
-- Tests      concrete inputs.
--
-- A C structure is a record and a function takes and gives it. A pointer into a buffer is an index.
-- Machine integers are natural numbers with their wrap-around written out (`u8`, `u32`, `elapsed`).
-- `none` is a failed assertion, a null pointer that is passed on to an assertion, a write outside
-- an array, or a read past the end of a string. Loops are recursions on the number of rounds left,
-- so no fuel is needed. A run of the program is a list of polls with their times, which are free
-- but for what a theorem asks of them; a round of `main` is given the clocks, the input pins and a
-- character of the serial line, and the milliseconds by which its `elapsedMillis` timers go on.
-- Debug output is left out, but for what the programs under Demos give to `println`; of `snprintf`
-- the directives that the source uses are modelled. Not modelled: the other programs of
-- target_teensy3 (loops of pin input and output), the desktop tools and the board.
pub mod Prelude
pub mod Queue
pub mod Fifo
pub mod Phy
pub mod Link
pub mod Bus
pub mod Rn52
pub mod App
pub mod Demos
pub mod Tests
