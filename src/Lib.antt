-- ===== src/Lib.antt =====
-- RZEmulator is a server emulator of two processes: the login server Mononoke (Mononoke/src), which knows
-- the accounts that are logged in and the game servers that are registered, and the game server Chihiro
-- (Chihiro/src), which runs the world. Both use the library under shared. A client logs in at Mononoke,
-- selects a game server and takes a one-time key there; the game server asks Mononoke for that key.
-- Packets between client and server go through a stream cipher. In the world a player has an inventory
-- of items and a list of quests, whose counters kills and items move, and it can
-- join a party of players. It mixes items by recipes. The map is cut into regions, whose lists of objects say who sees whom.
--
-- What each file models:
--   Cipher, Cipher/Stream, Cipher/Schedule: shared/Encryption/rc4_cipher.h and XRc4Cipher.cpp. `State` is
--     RC4Cipher::State; prepareKey is `prepare_key`, skipFor `skip_for`, codeBlock `code_block`, and
--     XRC4Cipher's Encode, Decode, SetKey and Clear are `encode`, `decode`, `set_key` and `clear`.
--   Item: Chihiro/src/Entities/Item/Item.cpp, the functions that the inventory calls.
--   Inventory, Inventory/Index, Inventory/Amounts, Inventory/Contents: Entities/Item/Inventory.cpp. Push,
--     Pop, Erase and the private push, pop, setCount and check are `push`, `pop`, `erase_item`, `append`,
--     `remove`, `set_count` and `check`, over a heap of items.
--   Auth: Mononoke/src/Lists/PlayerList.h and GameList.h, with the objects that both servers' sessions
--     share; Auth/Client and Auth/Game: Server/AuthClient/AuthClientSession.cpp and
--     Server/AuthGame/AuthGameSession.cpp, a function per handler. Auth/Listed, Auth/Login, Auth/Kept,
--     Auth/Closing, Auth/Steps, Auth/Handover and Auth/Lifetime hold the proofs; Auth/Steps puts all sessions together
--     as a step relation.
--   Quest: Chihiro/src/Quests/QuestBase.h and Quest.cpp; Quest/Manager and Quest/Updates:
--     Quests/QuestManager.cpp, a function per method. Quest/Unique, Quest/Lifecycle, Quest/Bumped,
--     Quest/Progress, Quest/Counters and Quest/Faults hold the proofs.
--   Groups: Chihiro/src/Groups/GroupManager.cpp, with `iequals` of shared/Utilities/Util.h; CreateParty,
--     JoinParty, LeaveParty, DestroyParty, onLogin and onLogout are the functions of those names.
--     Groups/Sound, Groups/Members and Groups/Levels hold the proofs.
--   Socket/Buffer: shared/Server/ASIO/MessageBuffer.cpp. Socket/Message: shared/Server/TS_MESSAGE.h.
--     Socket/Reader: the read path of shared/Server/ASIO/XSocket.cpp and Socket.h, from ReadHandlerInternal
--     over ReadHandler, ReadHeaderHandler and ReadDataHandler to AsyncRead and CloseSocket; the body of
--     ReadHandler's loop is `header_phase` and `read_payload`. Socket/Writer: shared/Server/XPacket.h,
--     XSocket's SendPacket and Update, and Socket's HandleQueue and Update. Socket/Stream is the
--     specification of the read path, a machine that takes single bytes. Socket/Space, Moves, Standing,
--     Packets, Payload, Heads, Headers, Refines, Events, Delivery, Connection, Queued, Sent, Loopback and Flushing hold the
--     proofs, from one buffer up to both ends of a connection.
--   Processor, Processor/Due: shared/Utilities/EventProcessor.cpp. Update, AddEvent and KillAllEvents are
--     `update_events`, `add_event` and `kill_all_events`; Due holds the proofs.
--   ByteBuffer, ByteBuffer/Fields, ByteBuffer/Reading: shared/Encryption/ByteBuffer.h. The appends of a value
--     and of a string are `append_value` and `append_text`, the reads `read_value` and `read_text`; Fields and
--     Reading hold the proofs, on writing and on reading.
--   Scrambled, Scrambled/Bits, Scrambled/Inverse, Scrambled/Words: shared/Server/Packets/EncodingScrambled.cpp and
--     the templates of EncodingScrambled.h and EncodingRandomized.h, a function per function; Bits, Inverse and
--     Words hold the proofs.
--   Regions: Chihiro/src/Map/Region.cpp, RegionBlock.h, the regions of RegionContainer.cpp, and AddObjectToWorld,
--     RemoveObjectFromWorld and onMoveObject of World/World.cpp; Regions/Sight: the loops of RegionContainer.cpp.
--     Regions/Cells, Members, Removal, Kept, Moves, Crossing, Visits, Visible and History hold the proofs, from one place of
--     the map up to all that can happen to a world.
--   Crafting, Crafting/Enhance, Crafting/Request: Chihiro/src/Crafting/MixManager.cpp, the recipes, EnhanceItem and its
--     companions, and onMixRequest of Network/GameNetwork/WorldSession.cpp, a function per method. Crafting/Arrange,
--     Single, Takes, Levels, Failures and Registry hold the proofs, from one material up to a request.
--   UnitState, UnitState/Times: Chihiro/src/Skills/State.cpp, a function per method; Times holds the proofs.
--   Timer, Timer/Laws: shared/Utilities/Timer.h, the clock difference and two of the timers.
--   Base and its children: shared names, lists, integers, maps. The Tests modules hold concrete runs.
--
-- How it is modelled. A function that can stop the process, read a null or deleted object or leave an
-- array returns an Option, and `none` is that. A pointer is a number, and a record of the state says what
-- lies behind it. Packets and events are lists. Unsigned 8 and 32 bit values keep their wrap-around; int32_t
-- and int64_t values are whole numbers without a bound. But for four loops no function needs fuel: each
-- recurs on the list that it runs through, on the number of rounds of a `for`, or on the bytes left. Calls of the database, of
-- random numbers, of tolower and toupper and of float arithmetic are arguments, and so are what the sessions
-- of a socket do with a packet, what the network answers and what a timed event does. The loop of XSocket::ReadHandler has
-- fuel: each round takes a byte from the read buffer, so that the size of the buffer is enough. So has that
-- of EventProcessor::Update, whose rounds depend on what the events add: the number of due events is enough
-- where they add events for later only. The read of a string from a ByteBuffer has one more than the buffer's size,
-- since each round reads a byte. The loop of
-- MixManager::procEnhanceFail has fuel, and none is enough. Sums of sizes in a ByteBuffer do not wrap.
--
-- Not modelled: rendering of packets, the database, logging, scripts, float geometry and the formulas of
-- skills and units; threads (the handlers of one process run one after the other), IOCP; HandleServerList, which
-- reads a field that is declared nowhere; the random quest table, whose functions are empty.
pub mod Base
pub mod Cipher
pub mod Item
pub mod Inventory
pub mod Auth
pub mod Quest
pub mod Groups
pub mod Timer
pub mod Socket
pub mod Processor
pub mod UnitState
pub mod ByteBuffer
pub mod Scrambled
pub mod Regions
pub mod Crafting
