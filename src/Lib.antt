-- ===== src/Lib.antt =====
-- A library on P2PChat, a chat server with its clients, written in C++.
--
-- The server reads its settings from an .ini file (Src/Server/IniFile.cpp), accepts connections, keeps the
-- bytes that a client sends in a ring buffer (Src/Common/ByteBuffer.cpp), cuts them into packets and
-- handles each (Src/Server/Protocol/cProtocol_impl.cpp): a client asks for a session, logs in, is
-- authenticated on another thread (Src/Server/Protocol/Authenticator.cpp), is announced to the others, and
-- then sends media to them through the server (Src/Server/ClientHandle.cpp, Src/Server/Server.cpp).
-- Settings and strings use Src/Common/StringUtils.cpp. The chat client keeps a connection to the server
-- (Src/Client/peer_connection_client.cpp), over which it signs in, learns of the others and exchanges
-- texts, and makes calls with WebRTC (Src/Client/conductor.cpp).
--
-- The files:
--   Prelude       the names that all share, and lemmas on lists, tests, integers and bits;
--   Outcome       the results of a call: a value, `false`, an undefined operation, the exit of `VERIFY`;
--   ByteBuffer    cByteBuffer: the memory, the positions and the operations on bytes. Its children:
--     Stream      the abstract queue of bytes that the class promises;
--     Valid       the invariant of the ring, and the queue that a ring stands for;
--     Write, Read, Queue, Transfer
--                 the operations against the queue;
--     Endian      Include/Endianness.h on a little-endian host;
--     Codec       what a writing and a reading method owe to each other;
--     Numbers, VarInt, Strings, Position
--                 ReadBE..., WriteBE..., ReadVarInt..., ReadVarUTF8String, ReadPosition64 and so on, and
--                 in the children Codecs that each pair is a codec;
--   IniFile       cIniFile: keys, names and values. Its children:
--     Comments    the comments of the file and of its keys;
--     Format      ReadFile and WriteFile on the bytes of the file;
--     Assoc, Lookup, Update
--                 the file as a partial map;
--     Values, Delete
--                 the operations against the map;
--   Settings      cMemorySettingsRepository. Its children:
--     Lookup      what is found behind each change;
--     Laws        what a repository promises, and that the memory (Memory) and
--                 cOverridesSettingsRepository over any two repositories (Overrides) keep it;
--   Framing       AddReceivedData, over what a packet does. Its children:
--     Frames, Short
--                 one round of its loop, on a whole frame and on the beginning of one;
--     Stream      the loop on a stream of frames, however it is cut;
--     Keeps       what the packets keep, the bytes keep;
--     Closing     a packet that clears what has been received;
--     Total       the loop on every input;
--     Reads, Fields
--                 HANDLE_READ, and the fields of a packet;
--   Session       cClientHandle with its protocol, and the packets that are composed. Its children:
--     Sending     each packet to a client, the disconnect, and the end of a tick;
--     Packets, Sent
--                 the bytes that are queued, for one packet and for many;
--     Cores       what decides a session, and that sending leaves it alone;
--     Disconnect, Fresh
--                 a session's end and its beginning;
--   Server        the list of clients: forwarding, broadcast, authentication, destruction. Its children:
--     Handlers    HandlePacket and its handlers;
--     Events      DataReceived, ServerTick, TickClients, the rounds of the authenticator, and runs of
--                 events;
--     Delivery, Forward
--                 which bytes are queued for which client;
--     Served      the authenticator's rounds;
--     Stream      what a working client sends, from its bytes to what the server does;
--     Clients, Sessions
--                 the sessions as a step relation, and in the children of Sessions the invariants of the
--                 relation (Orderly) and that the server follows it (Refines, Turns, Runs);
--   Client        PeerConnectionClient: its members, packets, signing out. Its children:
--     Handlers    HandlePacket and its handlers;
--     Events      connecting, resolving, receiving and closing, and runs of events;
--     Sent        the bytes that the socket gets;
--     Stream      what the server says to a client, from its bytes to what the client does;
--     Ended       the end of a session by a code of the server;
--     Keeps, Sound, Peers
--                 what every run keeps, and the map of the peers;
--     Fresh       a client that has just been made;
--   Conductor     Conductor: the beginning and the end of a call. Its children:
--     Observer    what the connection to the server tells it;
--     Commands    what the window and WebRTC ask of it;
--     Actions     all that can happen to a chat client, in any order;
--     Tidy, Civil, Runs
--                 what every run keeps;
--     Messages, Watching
--                 the messages of the server during a call;
--   Conversation  a text from one client through the server to another;
--   StringUtils   splitting, trimming, joining, merging and escaping; in Encode Base64Encode and
--                 URLDecode, and in Ports ReadUpgradeIniPorts of Src/Server/IniFile.cpp.
--
-- A method's name is written in lower case, as GetFreeSpace is `get_free_space`; of two methods with one
-- name, the one that takes an ID in place of a name ends in `_at`, or the other in `_of`. An object is a
-- record and a method returns the new one. A byte is a number, and a string is the list of its bytes.
--
-- An event of the server (a connection, bytes, a tick, a round of the authenticator, a closed link) is one
-- step, as if it held the server's lock throughout, so that a run is a list of events, with the time of
-- each. A client is named by its number, which stands for the pointer to it. The memory that `new` gives
-- and the digest of md5.cpp are parameters, `fresh` and `md5`. A call that stops the process leaves the
-- state as the stop finds it.
--
-- The chat client's socket (`Sockets`), its window (`Window`) and WebRTC with its JSON reader (`WebRtc`)
-- are parameters, records of the calls that the code makes. The observer behind `callback_` is a record of
-- calls on the client that it observes (`Observer`), since OnMessageFromPeer of the conductor signs the
-- client out; Conductor.Observer fills it. A call on a null pointer is `undefined`.
--
-- Numbers: `size_t` has 64 bits, and its sums and differences are cut to them. The memory of a buffer is
-- shorter than 2^63, as every array is. An ID of a key or value is a number; `noID` is `none`, and a
-- negative ID, which would index before the start of a vector, does not occur. The count of clients and the
-- ticks since a client's last packet are of type `int` and never negative; they are numbers here, as is a client's
-- number, and their overflow at 2^31 is `undefined`. The size of a packet's own buffer is cut to 32 bits.
--
-- Loops are recursions on the list they run through, or on fuel. The loop of `read_to_byte_buffer` gets
-- as many rounds as there are bytes to copy, and takes at least one in each. That of `read_var_int32` and
-- `read_var_int64` gets one round more than there are bytes to read, and takes one in each. The loop of
-- `add_received_data` gets one round more than there are bytes to read, and a round takes a byte or ends it.
--
-- Not modelled: the assertions and the thread check of a debug build; the streams behind `ReadFile` and
-- `WriteFile`; the values as int and double, which go through printf and scanf; the floating-point
-- values, whose bit patterns the code only moves; the logs, and the texts of disconnect reasons, which go
-- there; the destructor of a client; starting and stopping the threads and the server's console. The
-- client's window, the network and the copies of other projects in ThirdParty are left out.
pub mod Prelude
pub mod Outcome
pub mod ByteBuffer
pub mod IniFile
pub mod Client
pub mod Conductor
pub mod Conversation
pub mod Framing
pub mod Server
pub mod Session
pub mod Settings
pub mod StringUtils
