-- ===== src/Lib.antt =====
-- A gateway for voice over RTP. Third parties connect to a TCP port and send JSON requests in frames;
-- the server answers them, and makes RTP channels for the voice of a call. All paths are below
-- ConsoleApplication-RTPVoice/ConsoleApplication-RTPVoice/src; the Windows branches are modelled.
--
-- The parts, in the order in which a request goes through them:
-- * Socket (SocketWrap/socketwrap.cpp): `SocketSend`, `SocketRecv` and the others as functions of what
--   Winsock answers.
-- * Frame (ClientObj/clientobj.cpp, `StickDismantleProtocol`): the bytes of a client, in chunks, become
--   payloads. A frame is the byte 1, four decimal digits and the payload. The state is
--   `StickDismantleOptions_t`, `Options` here. Frame.Interface is what it asks of the queue.
-- * Fifo (FifoQueue/fifoqueue.cpp, the semaphore of SynInterface/syninterface.cpp): 20 slots of 512
--   bytes between the receiving thread and the thread that parses. Fifo.Interleaving has the steps of
--   threads that push and take, and Fifo.Order the packets in the order of these steps. Fifo.Range is
--   about a queue with any number of packets.
-- * Client (ClientObj/clientobj.cpp): `ProcessClientReqThreadFunc` receives, `PushRecvBuffToQueue`
--   queues, `ProtocolParseThreadFunc` parses and `DataProcessFunc` hands a request on. Client.Parse has
--   the loop of the parse thread, and the turns of the two threads as a list; Client.Steps has the state
--   of the two threads and one input of them at a time; Client.Runs has them where the receiving thread
--   goes on after the parse thread has left its loop; Client.Draining has a
--   client that never stops sending; Client.Object has the constructor and the destructor.
-- * Master (mymaster.cpp): `MasterOnDataFunc` answers the request; `MyRTP` and the voice file are seen
--   through the list of actions. The lock of `onData` belongs to one client: Master.Race has the handlers
--   of several clients at once, and elsewhere the requests are handled one at a time. Master.Transmit
--   hands the messages to Sender.
-- * Rtp (MyRTP/myrtp.cpp): the poll thread of a voice channel. Rtp.Opening has its turns with the
--   request that makes the channel.
-- * Replies (MyProtocol/myprotocol.cpp): the JSON of each answer, and `CreateGuid`.
-- * Sender (MyProtocol/myprotocol.cpp): `SendDataToTheThirdParty` builds the frame of an answer and
--   `PhySocketSendData` sends it.
-- * Server (MyProtocol/myprotocol.cpp): the listen threads, the map of clients, the thread that deletes
--   clients that ended, and the destructor. Server.Steps has the steps of these threads as a
--   relation; Server.Notices and Server.Overwritten have many clients that end.
-- * Sync (SynInterface/syninterface.cpp): the event `MySynCond`.
-- * Gateway joins Client and Master: from the bytes of a client's socket to the answers. Sender is
--   joined to them in Gateway.System, to the bytes that go back. Gateway.Clients has the requests of
--   several clients. Gateway.World runs clients side by side, their inputs mixed in any order, and
--   Gateway.System puts the master behind them; Gateway.Asked has to which sockets messages go. In
--   such a run each socket is one client's; one that is used again after its client was deleted is not
--   part of it.
-- * Common (Common/common.h) has the shared types and constants; Text has the digits that `sprintf`
--   and `sscanf` write and read; Prelude has the shared names, lists and integers.
--
-- Code that may be undefined behaviour, throw or not end returns a `Run`. The loop of the framing
-- runs on fuel, two rounds more than the buffer has bytes, which is enough: the first round
-- leaves no more bytes to look at than the buffer has, and each later one that goes on takes five
-- or more of them. The loops that wait for Winsock run on the list of its answers, and the poll
-- thread on the list of its rounds; with none left they are still running. A socket handle has 4
-- bytes. JsonCpp's reader is the parameter `Json`, and its writer an argument; what jrtplib and
-- `rand` return is an argument.
--
-- Not modelled: jrtplib and JsonCpp, which are other projects' code; the locks and threads of
-- SynInterface, beyond that a call under a lock is one step and that a destructor waits for its thread;
-- what only passes a call on to Winsock; `GetIpAddress`, which nothing calls; `main`.
pub mod Prelude
pub mod Text
pub mod Common
pub mod Frame
pub mod Fifo
pub mod Socket
pub mod Sender
pub mod Client
pub mod Replies
pub mod Server
pub mod Rtp
pub mod Master
pub mod Sync
pub mod Gateway
mod Tests
