-- ===== src/Lib.antt =====
-- DDS Pipe: the core of a router of DDS topics and services. Participants discover endpoints,
-- and a pipe bridges the topics and the services of these endpoints: for each topic a bridge, in
-- it for each reader a track, which takes the samples of the reader and writes them with the
-- writers of other participants, over payloads that a pool shares and counts.
--
-- The parts, and the files that model them (sources under ddspipe_core/src/cpp):
-- Track: communication/dds/Track.cpp. `Protocol` has one step per atomic action of the listener
-- (`data_available_`), of the transmitting task (`transmit_`), and of `enable` and `disable`.
-- The status is an unsigned 32-bit counter; a history counts the callbacks that come in one
-- round of the task, and fewer than 2 ^ 31 of them keep the counter from wrapping. `Delivery` lets
-- listeners and tasks alone go on. A `take` may fail, and then its sample is removed or stays.
-- Payload: efficiency/payload/FastPayloadPool.cpp and PayloadPool.cpp. `Defs` has the pool over
-- an explicit heap of blocks, `Clients` the payloads that are held and the calls that are made,
-- `CacheChange` the layer that records the owner of a payload, `Race` the release by threads. A
-- reference count has 32 bits and the counters of the pool have 64; a history of fewer than 2 ^
-- 32 calls stays within both.
-- `Mapped` is efficiency/payload/MapPayloadPool.cpp, with `reserve` and `empty` of Fast DDS's
-- payloads as parameters.
-- Registry: communication/rpc/ServiceRegistry.cpp, the requests that wait for replies.
-- Allowed: dynamic/AllowedTopicList.cpp. A kind of filter (IFilterTopic) is a record of its
-- operations and their laws.
-- Topics: types/topic/Topic.cpp and types/topic/dds/DdsTopic.cpp; `Filters` is
-- types/topic/filter/WildcardDdsFilterTopic.cpp, an instance of the filters of Allowed. The
-- match of a pattern, by cpp_utils, is a parameter.
-- Pipe: core/DdsPipe.cpp and types/dds/Endpoint.cpp. `Parts` is the interface to topics, lists
-- and bridges, `Defs` has the state and the methods, `Discovery` the callbacks and the
-- constructor, `History` the calls in the order in which the mutex of the pipe lets them in.
-- Database: dynamic/DiscoveryDatabase.cpp. `Defs` has the entities, the callbacks and the queue
-- (DBQueue of Fast DDS, an interface with laws). The loop over the queue takes as fuel one more
-- than the number of items, which is enough. `Driven` lets the database call the callbacks of a
-- pipe.
-- Routing: communication/dds/DdsBridge.cpp, dynamic/ParticipantsDatabase.cpp and
-- configuration/RoutesConfiguration.cpp: which writers belong to which track. The participants
-- are parameters, and may throw when they are asked for a reader or a writer.
-- Endpoints: the readers and writers of ddspipe_participants/src/cpp that do not come from
-- Fast DDS. `Sampling` is the interface to the clock and to rates, `Reader` is
-- reader/auxiliar/BaseReader.cpp, `Internal` reader/auxiliar/InternalReader.cpp, `Writer`
-- writer/auxiliar/BaseWriter.cpp and `Multi` writer/rtps/MultiWriter.cpp. What a kind of
-- endpoint adds is a parameter. `SpecificQos` is types/dds/SpecificEndpointQoS.cpp of
-- ddspipe_core, by which MultiWriter keeps its writers.
-- Rpc: `Text` has what types/topic/rpc/RpcTopic.cpp uses of texts, on their bytes, with
-- positions of 64 bits, and `Topic` that file. `Bridge` is the state of
-- communication/rpc/RpcBridge.cpp and the methods that set it up, `Transmit` its loop over
-- what a reader's `take` gives. Participants and writers are parameters.
-- Config: `Routes` is configuration/DdsPipeConfiguration.cpp with
-- configuration/TopicRoutesConfiguration.cpp, `Qos` types/dds/TopicQoS.cpp with the topics
-- that DdsBridge makes for its participants.
-- Monitoring: monitoring/producers/TopicsMonitorProducer.cpp (`Topics` gathers, `Production`
-- produces and consumes, `History` is a sequence of calls), StatusMonitorProducer.cpp (`Status`),
-- both with MonitorProducer.cpp, and monitoring/Monitor.cpp (`Monitor`). Counts of messages have 32
-- bits. A rate, its division and a consumer are parameters.
-- Schema: types/dynamic_types/schema_msg.cpp. The dynamic types of Fast DDS are a parameter, with
-- a depth that falls from a type to its parts; it is the fuel of the recursion, and enough.
-- Address: types/address/Address.cpp of ddspipe_participants, with name resolution and the tests of
-- an IP as parameters, and with the text that a TCP descriptor of Fast DDS gives for an IP that
-- it was set to.
-- Peers: participant/rtps/InitialPeersParticipant.cpp of ddspipe_participants (`Transports` for one
-- address, `Participant` for all of them) with its configuration, and `Tls`, types/security/tls/TlsConfiguration.cpp. The fuel counts the rounds of the search
-- for a transport with the same address, which is the one loop there without a bound.
-- Base and Map: what all of them use. A `std::map` is a list of pairs in the order of its keys.
--
-- A call that throws gives none, or an outcome that says so; a read of memory that is not
-- there is an outcome of its own. What cpp_utils and Fast DDS do is a parameter, with the
-- laws that are used. The pipe takes its bridges, and RpcBridge among them, by an interface.
-- Not modelled: a disable of RpcBridge while its loop runs; the readers and writers over Fast DDS,
-- the data filters and the participants but for the attributes of the one in Peers, all of which
-- pass calls on to Fast DDS; CopyPayloadPool; the consumers of monitoring and of logs, which
-- publish over Fast DDS; schema_idl.cpp; generated serialisation code; and the YAML reader,
-- which reads the trees of a third-party parser. Tests modules apply
-- the theorems to examples.
mod Base
pub mod Map
pub mod Payload
pub mod Registry
pub mod Address
pub mod Allowed
pub mod Peers
pub mod Pipe
pub mod Database
pub mod Routing
pub mod Endpoints
pub mod Rpc
pub mod Config
pub mod Monitoring
pub mod Schema
pub mod Topics
pub mod Track
