-- ===== src/Lib.antt =====
-- A model of bls, a live-stream server for RTMP, and what is shown of it.
--
-- A publisher's connection receives a byte stream. `chunk_state_machine` (src/RtmpProtocol.cpp) cuts
-- it into chunks, each stored in a bucket of one shared pool (src/RtmpChunkPool.cpp), and gathers the
-- buckets of a message in the channel of its chunk stream. A complete message goes to a handler
-- (src/BlsMessage.cpp). Audio and video go on to the live source (src/BlsSource.cpp), which caches what
-- a new player needs and passes every chunk to the state machine of each of its players
-- (src/BlsConsumer.cpp). A player is sent the buckets themselves: a write holds a reference to its
-- bucket, which libuv's callback gives up.
--
-- The files, each for the code it names:
--   Base: booleans, lists, byte memories and `Option`, with their lemmas.
--   Bytes: read_*bytes and write_*bytes of src/utilities.cpp, on a little-endian host.
--   Chunk: the structs of include/RtmpChunkPool.h and the tests on a payload.
--   Chunk/Wrap: wrap_chunk_header of src/RtmpProtocol.cpp.
--   Pool: the pool of src/RtmpChunkPool.cpp. The file's globals are the record `Pool`, and a bucket's
--     address is its `g_bucket_id`. Pool/Spec is what the pool promises, as a bag of free buckets and
--     a count of references, operation by operation; Pool/Held is about the references of one holder.
--   World: the objects that handlers share, and the monad `M` of handlers over them; World/Buckets the
--     pool's operations in it, World/Writes the writes and their callbacks, World/Encode
--     encode_buf_to_chunk_chain; World/Rewrites is a step that writes into one bucket.
--   Consumer: consumer_send_video and consumer_send_audio, as a decision, `video_action` and
--     `audio_action`, and its performance in Consumer/Send.
--     Consumer/Slow is a player that fell behind, Consumer/Lifecycle init_consumer and free_consumer.
--   Source: the dispatch and the caches of src/BlsSource.cpp; Source/Metadata on_metadata,
--     Source/Joining add_consumer, Source/Lifecycle clear_consumer, Source/Streams the pool and the
--     map of sources, and Source/Startup how that pool is filled.
--   Protocol: the state of a connection, and the monad `P` of its handlers; Protocol/Client close and
--     read_n of src/RtmpClient.cpp, Protocol/Control the messages that the server sends,
--     Protocol/Header the message header and expect_payload_len, Protocol/Message src/BlsMessage.cpp,
--     Protocol/Machine on_new_chunk, expect_chunk and the payload, Protocol/Receive the other states,
--     the read callback and start, Protocol/Lifecycle the constructor, hand_shake_finish and the
--     destructor. Protocol/Receive/Delivery follows a message of one chunk through the machine, and
--     Protocol/Receive/Chunks a message of several, with the peer as a list of reads.
--   HandShake: the handshake of src/BlsHandShake.cpp, as a step function over what libuv tells;
--     HandShake/Session with the client and the server, HandShake/Remote the connection to another
--     server, with _node_remote_connect_cb of src/addon.cpp.
--   Binding: what JavaScript calls on a client, of src/addon.cpp.
--   Server: the admission of clients of src/RtmpServer.cpp, whose member client_count is in the world;
--     Server/Startup start_server of src/addon.cpp, with the configuration of include/RtmpServer.h.
--   Examples: concrete data, and each theorem at some of it.
--
-- Conventions. A pointer to an object is a number, and a stream name is a number. An intrusive queue
-- is the list of its members' ids. Unsigned integers are natural numbers whose wrap-around is written
-- out. A fault, such as a null pointer, the head of an empty queue, a store outside its memory or a
-- failed `assert`, is `none`. `bls_malloc` does not fail.
--
-- Fuel. encode_rest has one more than the bytes of the buffer, and each round takes a byte or more;
-- find_key has 3001, and leaves the 3000 bytes of `metadata_buf` before. All other recursion is on
-- lists. chunk_state_machine calls itself only where the next state is known, so the model calls that
-- state.
--
-- Parameters. `Host` (Protocol/Message) is the code behind the connection that is not modelled: the
-- callbacks to JavaScript, the length of its buffer, and the sum of a time and the double
-- `abs_record_time`, on bit patterns. HandShake takes `SHandShake` of librtmp, and the bytes behind the
-- literal of the private signature, which the code reads.
--
-- The destructor of a connection takes the callback `node_on_close_cb` as a parameter. The callbacks of
-- clear_consumer and of the source's end are only a list of the clients that are told.
--
-- Not modelled: the copies of librtmp and spdlog, the headers of libuv, src/server_c.cpp,
-- src/BlsLogger.cpp, bls.js, timers, the request of connect_remote_server, listening, the
-- parts of src/addon.cpp that keep callbacks, and free_chunk_pool, which runs as the
-- process ends. The bytes that hs_write_private_sig writes are in no bucket, so they are a result of
-- the model and not among the pending writes of the socket.
pub mod Base
pub mod Bytes
pub mod Chunk
pub mod Pool
pub mod World
pub mod Consumer
pub mod Source
pub mod Protocol
pub mod Server
pub mod Binding
pub mod HandShake
pub mod Examples
