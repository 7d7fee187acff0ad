-- ===== src/Lib.antt =====
-- The web client of RemoteTerm for MeshCore: how it keeps the messages of a conversation, its
-- unread counts and its connection, the network that it draws from packets, and the texts it reads
-- and writes.
--
-- The client gets messages and packets over a web socket and pages of messages from the backend.
-- Each message has a content key (Messages/Key) by which an echo of it is recognised. The hook of a
-- conversation (Messages/Chat) shows the rows of one conversation: it reconciles them with fetched
-- pages (Messages/Reconcile), appends older pages (Messages/Append), buffers ACKs that come before
-- their messages (Messages/PendingAck), and puts messages of other conversations into a cache
-- (Messages/Cache). Packets feed a network of nodes and links (Network/Graph): the hops of a packet
-- are resolved against an index of the contacts (Network/Context, Network/Resolve), ambiguous
-- repeaters are guessed and split by their traffic (Network/Guess, Network/Traffic), the canonical
-- path becomes links and an observation (Network/Ingest), old nodes are pruned (Network/Prune), and
-- the observations are projected on what the user wants to see (Network/Visibility,
-- Network/Project, with the paths of Network/Steps). The packets themselves are kept, with their
-- statistics, in a store (Packets).
--
-- Switching the conversation stores its rows in the cache and takes those of the next one from it
-- (Messages/Switch). The counts of unread messages follow the messages that arrive and the
-- conversations that are shown (Unread), over a socket that reconnects by a timer (Socket). A
-- conversation has a hash in the URL (UrlHash); the hops of a path are cut out of its hex text and
-- resolved to contacts (Paths); the text of a message holds senders, references and reactions
-- (Codecs), and letters are replaced while it is typed (Codecs/Replacement).
--
-- Files and sources:
-- Data: frontend/src/types.ts.
-- Messages/Key: frontend/src/utils/messageIdentity.ts, getMessageContentKey.
-- Messages/Cache, Reconcile, PendingAck, Append, Chat:
-- frontend/src/hooks/useConversationMessages.ts.
-- A method of ConversationMessageCache is a function of its name in Messages/Cache. A callback of
-- the hook is a function from Chat to Chat; of a fetch, the receive_ function is what follows the
-- answer.
-- Network/Steps, Traffic: frontend/src/utils/visualizerUtils.ts.
-- Network/Graph, Context, Guess, Resolve, Ingest, Visibility, Project, Prune:
-- frontend/src/networkGraph/packetNetworkGraph.ts, with getPacketLabel of visualizerUtils.ts and
-- normalizePacketTimestampMs of frontend/src/components/visualizer/shared.ts in Network/Ingest.
-- Packets: frontend/src/stores/rawPacketStore.ts, frontend/src/utils/rawPacketIdentity.ts, and the
-- records of frontend/src/utils/rawPacketStats.ts.
-- Messages/Switch: the effects and callbacks of frontend/src/hooks/useConversationMessages.ts on a
-- switch; a handler that sends a request returns it.
-- Unread: frontend/src/hooks/useUnreadCounts.ts and the message times of
-- frontend/src/utils/conversationState.ts. Unread/Badges is the abstract machine that they are
-- compared with.
-- Socket: frontend/src/useWebSocket.ts, with the events of the browser as a step relation.
-- Paths: frontend/src/utils/pathUtils.ts, with its routes in Paths/Route, packets in Paths/Payload,
-- path resolution in Paths/Places and Paths/Resolve, and labels in Paths/Display.
-- UrlHash: frontend/src/utils/urlHash.ts, publicChannel.ts and pubkey.ts.
-- Codecs/Sender: frontend/src/utils/messageParser.ts. Codecs/Reaction:
-- frontend/src/utils/meshcoreOpenPayloads.ts. Codecs/Replacement:
-- frontend/src/utils/textReplace.ts.
-- Prelude: lists, tests, texts, and the Map of JavaScript as a list of entries in insertion order.
-- Tests: the theorems at concrete inputs.
--
-- How the code is modelled: a class or a mutable state is a record, a method a function that
-- returns the state after it. A text is the list of its UTF-16 units, and letter case is that of
-- ASCII: ids and prefixes are hexadecimal. Coordinates and the SNR are integers in small units,
-- other numbers are natural numbers. A field that may be undefined is an option, one that may also
-- be null an option of an option. The clock, the order of localeCompare and what the decoder makes
-- of a packet are arguments, so nothing is assumed of them. Loops are recursions on the list that
-- they go through. On fuel are only the digits of a number, with one more than the number, of which
-- Prelude/Strings has the lemma that more changes nothing; the hops of a path, with the length of
-- its text, which Paths/Laws has a theorem on; the loop of text replacement, with the length of the
-- text, of which Codecs/Replacement/Loop has the lemma that it is read to its end; and hex digits,
-- with the number of digits that are printed. What JSON.parse makes of a text and whether
-- localStorage takes a write are arguments. The browser's encodeURIComponent and decodeURIComponent
-- are arguments, with what is documented of them as hypotheses where it is needed, and so is the
-- haversine formula. What the bitwise operators read is a number of 32 bits. React state and the
-- refs that mirror it are one state, committed between handlers. The bounds are those of the code:
-- 20 conversations and 200 messages in the cache, pages of 200, 500 buffered ACKs, 1000 content
-- keys, 200 traffic observations of 30 minutes, 500 packets and 20000 observations of a session.
--
-- Not modelled: failed requests, the guards before requests for older and newer rows, which compare
-- arrays by identity, the refetch on a change of the block list, the evaluation of packet
-- statistics, sort orders in localStorage, the formatting of distances and dates, reactions of
-- other clients, the user interface, the API client, the backend in Python, and the MeshCore
-- decoder, which is another project's library.
pub mod Prelude
pub mod Data
pub mod Messages
pub mod Network
pub mod Packets
pub mod Unread
pub mod Paths
pub mod UrlHash
pub mod Socket
pub mod Codecs
mod Tests
