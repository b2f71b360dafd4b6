-- ===== src/Lib.antt =====
-- LDACS MCSOTDMA: multi-channel self-organized TDMA for LDACS air-to-air links. Every user keeps a
-- table of time slots for each frequency channel and for each piece of its radio hardware, finds
-- free slots in them, proposes links on these slots to other users, and keeps out of the way of
-- the links that others agree on. This library models the tables and what stands on them.
--
-- The parts, each with its file here and the code it is about (paths from the repository's root):
--   Reservation        Reservation.hpp, Reservation.cpp: what a slot is used for, and by whom.
--   Channel            FrequencyChannel.hpp, FrequencyChannel.cpp: a frequency channel.
--   SlotCalculator     SlotCalculator.cpp: the slots of the bursts of a link.
--   Table              ReservationTable.hpp, ReservationTable.cpp: the slots of a channel or of a
--                      hardware device. Table/State has the state and the exceptions, Query the
--                      const methods, Mark `mark`, Lock the locks, Find the searches, Shift
--                      `update` and the copies between tables; its other children have proofs.
--   ReservationMap     ReservationMap.hpp: the slots that a link has locked or scheduled.
--   ReservationManager ReservationManager.hpp, ReservationManager.cpp: a user's channels with their
--                      tables. ReservationManager/Schedule is `scheduleBursts`.
--                      ReservationManager/Sent is `getTxReservations`; its other children
--                      have proofs, Peers those on the two ends of a link.
--   LinkProposalFinder LinkProposalFinder.cpp: which links a user proposes, and the queue of tables
--                      of ReservationManager.cpp.
--   ThirdPartyLink     ThirdPartyLink.hpp, ThirdPartyLink.cpp: the links of other users.
--                      ThirdPartyLink/Handlers has the reset and the link request,
--                      ThirdPartyLink/Reply the link reply and what follows the end of a link.
--   LinkManager        LinkManager.hpp, LinkManager.cpp: what the managers of the shared channel and of
--                      the point-to-point links share, and how a packet is taken apart.
--   PpLinkManager      PPLinkManager.hpp, PPLinkManager.cpp: one end of a point-to-point link.
--                      PpLinkManager/Handlers has the methods, PpLinkManager/Accepting
--                      `acceptLink`, PpLinkManager/Utilization the reports, PpLinkManager/Locking
--                      `lockProposedResources`; its other children have proofs.
--   ShLinkManager      SHLinkManager.hpp, SHLinkManager.cpp: the manager of the shared channel.
--                      ShLinkManager/Broadcast schedules broadcasts, ShLinkManager/Request makes
--                      them up, ShLinkManager/Reception is what is done about those of others.
--   DutyCycle          DutyCycle.hpp, DutyCycle.cpp: how much a user may transmit.
--   McsotdmaMac        MCSOTDMA_Mac.hpp, MCSOTDMA_Mac.cpp: the link managers of a user and what is computed
--                      over them. McsotdmaMac/Slot is what happens in a time slot,
--                      McsotdmaMac/ThirdParty the third-party links by their users,
--                      McsotdmaMac/Settings the settings, McsotdmaMac/Resets what the reset of a
--                      third-party link does to the others; McsotdmaMac/Executed has proofs.
--   MovingAverage      MovingAverage.hpp, MovingAverage.cpp: a window of recent values.
--   NeighborObserver   NeighborObserver.hpp, NeighborObserver.cpp: which neighbors are active.
--   BeaconPayload      BeaconPayload.hpp: the transmissions that a beacon tells of.
--   Prelude            shared names: Boolean tests, lists, signed integers, results, maps.
--   Examples           concrete tables, managers and links, on which the theorems are applied.
--
-- How the code is modelled. A field of a class is a field of a record under its name, a method is a
-- function of that name in snake case. Pointers to tables and channels are numbers in a `Heap`, and
-- a null pointer is `none`, so that tables which link each other share their state as in the code.
-- A method that changes tables takes the heap and returns it with a `Result`: the value, or the
-- exception, of which the heap keeps what was written before it was thrown. A loop is structural
-- recursion on the rounds that are left or on the list it goes through.
-- Numbers are natural numbers; `uint32_t` and `uint64_t` arithmetic wraps where the code can make
-- it wrap, and `int` is an exact integer, since its overflow is undefined in C++.
--
-- Bounds. `mark` calls itself on the linked tables; it takes a depth, and `too_deep` stands for
-- more links than that. The program links channel tables to hardware tables, which have no links,
-- so that a depth of two is enough, and what is stated of `mark` is stated for every depth from
-- two on.
--
-- What is a parameter. The identifiers of the glue library are known by their numbers, and its
-- symbolic ones are the record `MacIds`. What a link asks of the MAC, of the shared channel's manager
-- and of the upper layer is a record `Mac` or `Station` of calls, and what the MAC asks of its managers
-- and of the layers in a time slot is the record `Node`; each has the rest of the program's state as
-- a type parameter. `double` is the record `Numbers` of the operations that are used of it,
-- and a moving average is the quotient that it divides. The
-- addresses of new objects, random numbers and what a constructor leaves unset are arguments.
--
-- What is not modelled: the physical layer, whose methods mostly call the glue library;
-- OldPPLinkManager, which is not built; printing, statistics and positions; plain getters; and the
-- passing on of the predictions of the upper layer.
pub mod Prelude
pub mod Reservation
pub mod Channel
pub mod SlotCalculator
pub mod Table
pub mod MovingAverage
pub mod ReservationMap
pub mod ReservationManager
pub mod LinkManager
pub mod ThirdPartyLink
pub mod NeighborObserver
pub mod LinkProposalFinder
pub mod BeaconPayload
pub mod PpLinkManager
pub mod DutyCycle
pub mod ShLinkManager
pub mod McsotdmaMac
pub mod Examples
