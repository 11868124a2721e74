-- ===== src/Lib.antt =====
-- hyprwire: a wire protocol between a server and its clients over a Unix socket.
--
-- Both sides hold objects. A client greets the server (HELLO), the two agree on a version
-- (HANDSHAKE_BEGIN, HANDSHAKE_ACK), the server names its protocols (HANDSHAKE_PROTOCOLS), and the
-- client binds an object of a protocol under a sequence number (BIND_PROTOCOL), which the server
-- answers with the object's number (NEW_OBJECT). Methods are then called by generic messages, whose
-- arguments are marshalled by the types that generated specifications give, and file descriptors
-- travel beside the bytes. A roundtrip is a request and an answer with the same number.
--
-- The files, with the code under src/core that they are about:
-- - Base: numbers, lists and machine words that all modules share. Outcome: what a read of a buffer
--   comes to, undefined behaviour included.
-- - Wire: the codes (message/MessageType.hpp, include/hyprwire/core/types/MessageMagic.hpp), and
--   numbers in texts.
-- - VarInt: parseVarInt and encodeVarInt of message/MessageParser.cpp.
-- - Message: the constructors of message/messages, one that decodes and one that encodes for each
--   message. Message/Generic is GenericProtocolMessage.cpp, Message/Trace parseData of IMessage.cpp.
-- - WireObject: IWireObject of wireObject/IWireObject.cpp. Marshal is `call` up to what is sent,
--   Demarshal is `called` up to the listener, with its check of the types and its reading of values.
-- - Server: server/ServerClient.cpp, ServerObject.cpp and ServerSocket.cpp, and the server's part of
--   message/MessageParser.cpp. State has the fields, Client the operations of CServerClient, Parser
--   handleMessage and parseSingleMessage, Socket the dispatch of one round, Events its loops,
--   Listener the constructor, attempt and the destructor, PollThread the steps of the thread of
--   extractLoopFD; Calls is `call` of a server's object, and Requests has the steps that a server
--   promises to make.
-- - Client: client/ClientSocket.cpp and ClientObject.cpp, and the client's part of
--   message/MessageParser.cpp, laid out in the same way; Connect has attempt, Dispatch has
--   dispatchEvents, the loops that wait, and the rest of `call`. Replies has the steps that a client
--   makes on the messages of a server, and Objects the sequence numbers of its objects. Both sides
--   are followed together in Handshakes (from the greeting to the list of protocols), Binds (an
--   object that is asked for and numbered; Binds/Interleavings, in any order, on the messages that
--   each side sends), Deferred (calls that wait for that number), Calls and Roundtrips; Hangups is
--   a server that goes away.
-- - Scanner: scanner/main.cpp of the repository's root. Text has camelize and std::format,
--   Types the types of arguments, Protocol scanProtocol, Header, Client and Server the texts that
--   are written, Main the program. Generated says what the written code means to the compiler, and
--   Generated/Listener that the functions written for libffi have the parameters that it passes.
-- - Reads: parseFromFd of socket/SocketHelpers.cpp.
-- - Tests: the theorems at concrete inputs.
--
-- State is passed explicitly: an operation takes the record of a client or a socket and returns it
-- changed. What goes out, and which functions of the program are called, is a list of events in
-- order. Bytes are natural numbers below 256 in a list, `size_t` sums of lengths that a peer chose
-- wrap at 2^64 and object numbers at 2^32.
--
-- Fuel: the walk over the arguments of a generic message, the reading of values in `called` and the
-- loop of handleMessage run on fuel, each with the size of its input plus one. Each round of them
-- takes a byte at least as long as no length wraps; where the theorems speak of messages, they
-- state that the fuel is enough. An outcome `stuck` stands for a loop that goes on for ever.
--
-- Parameters: `describe` is the text that std::format makes of a refusal, `prep_cif` says whether
-- libffi takes the types of a call, `peer` is the pid that getsockopt finds, `xml` and `load` are
-- what the scanner uses of pugixml, `float_text` is the text of a float. What poll, accept, recvmsg,
-- pipe and the file system find is an input.
--
-- Not modelled: logging, but for the text that IMessage::parseData makes of a message; what the
-- program does inside onBind and its listeners; the destruction of objects; and the races between
-- the server's threads on fields that no lock guards.
pub mod Base
pub mod Wire
pub mod Outcome
pub mod VarInt
pub mod Message
pub mod WireObject
pub mod Server
pub mod Client
pub mod Scanner
pub mod Reads
pub mod Tests
