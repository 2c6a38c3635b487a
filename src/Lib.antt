-- ===== src/Lib.antt =====
-- The client side of Kafka's protocol as kafka-nodeTS implements it: the bytes of the basic
-- types, the encoder and decoder over them, the headers of requests and responses, the connection
-- to one broker, what the client knows of the cluster, the client of the whole cluster, the
-- consumer, the producer and the admin client.
--
-- Which file is about which part of the repository:
-- BasicTypes: the static encoders and decoders of src/protocol/types/BasicTypes.ts. `encode_x`
-- and `decode_x` are `encodeX` and `decodeX`. Numbers has the booleans and whole numbers, Floats
-- the floats and doubles, Strings the strings and byte arrays, Arrays the arrays, Varint the
-- loops over the count of the compact formats, Compact those formats. The files ending in Laws,
-- VarintFuel and Bounds have the proofs.
-- Encoder and Decoder: src/protocol/Encoder.ts and src/protocol/Decoder.ts. A method that writes
-- takes an encoder and returns the next one or an error; a method that reads returns the value
-- and the next decoder. Encoder/Laws is about the size and the bytes, Decoder/Laws and
-- Decoder/Streams about reading what was written.
-- Network/Headers: src/network/protocol/Headers.ts.
-- BrokerConnection: src/network/BrokerConnection.ts. Defs has the state as a record with a field
-- for each field of the class, and the outputs: the events emitted, the promises settled, what
-- goes to the socket. Socket has connecting, disconnecting and the events of the socket, Requests
-- has `send`, its callback and the timer, Incoming has `handleIncomingData` and `handleResponse`.
-- Each handler is a function to an effect: the state after it, the outputs in order, and whether
-- it returns or an exception leaves it. Framing has the messages as they stand on the wire and
-- what the loop makes of them. Invariant has the events that may come in any order, and what
-- holds after any of them; Settling counts the promises settled, over a run of events in
-- Settling/Runs; Answers has the response to a request in flight, Exchange a request with its
-- response.
-- ClusterMetadata: src/network/ClusterMetadata.ts, with the data of
-- src/network/protocol/responses/MetadataResponse.ts; Changes has the comparison of partitions,
-- Events what the event of an update leaves out.
-- Network/Protocol, Network/Requests, Network/Responses: src/network/protocol/Protocol.ts and the
-- files of its folders requests and responses. Fields and Filling have the steps that read or
-- write one field behind another; Responses/Laws and Requests/Laws have the bytes.
-- NetworkClient: src/network/NetworkClient.ts. Defs has the state, and the record of operations
-- and laws that the client uses of a broker connection; Brokers fills it with BrokerConnection.
-- Action has the steps of a method, which return a result or an exception and the client in any
-- case. Refresh has `refreshMetadata`, `updateBrokerConnections`, `fetchApiVersions` and the
-- timer, Lifecycle has `connect` and `close`, Requests has `sendRequest` and the methods over it.
-- Keeping and Open have what the methods keep, Shut and Down are about requests without a
-- connection, Nodes about the connections after a refresh, Rounds about the calls of
-- `sendRequest` by itself, Invariant about any order of calls, Closing about a client that was
-- closed; Overlap has refreshes and `close` in two parts each, with other events between them.
-- Network/ApiKeys: src/network/protocol/ApiKeys.ts. Errors: src/errors.
-- Message: the class ApiVersions of src/protocol/Message.ts; Headers has
-- src/protocol/RequestHeader.ts and src/protocol/ResponseHeader.ts, Requests has
-- requests/Request.ts and responses/Response.ts of that folder, for a body whose methods are
-- given.
-- Admin: src/admin. NewTopic, NewPartitions and Config have the classes of those names,
-- Operations what each method answers, Client the client: its calls, those that wait, and the
-- timers.
-- Consumer: src/consumer/KafkaConsumer.ts; `connect` and `close` are in two parts, before and
-- after their delay, and Closing is about `close`. Producer: src/producer/KafkaProducer.ts.
-- Serde: the integer, long, byte array and string serializers and deserializers of src/serde;
-- Shared has the one string serde that `StringSerde.get` hands out, Platform those of doubles and
-- of JSON, Pairs the serde made of two.
-- Prelude, Buffer, Text, JsMap: the language's numbers, exceptions, buffers, UTF-8 and maps, as
-- far as that code relies on them. Tests has runs on concrete values.
--
-- How the parts interact: the encoder and decoder call the basic types; `send` encodes a header,
-- frames the request and records it among the requests in flight by its correlation id; the bytes
-- that arrive are cut into messages, and a message settles the promise of the request in flight
-- with its correlation id. The client sends over such connections, and learns from the parsed
-- responses which connections to hold. Consumer, producer and admin client stand alone: they
-- simulate the cluster.
--
-- The calls of the admin client and of the consumer overlap: each goes on when its timer fires,
-- and the timers fire in any order. Those of the client are modelled twice: in
-- NetworkClient/Invariant each runs to its end before the next one starts; in
-- NetworkClient/Overlap other events come while a refresh waits for its response and while
-- `close` waits for the connections, but not while a refresh makes connections. A method of the
-- producer runs to its end before the next one starts. The random numbers that the consumer and
-- the producer draw are arguments of their methods, and partitions, offsets and times are not
-- negative there.
--
-- Strings are their UTF-16 units. A number that the source keeps in a double is an integer here,
-- and the operators that work on 32 bits are written with their wrap-around. The time is an
-- argument of the handlers that read the clock.
--
-- The loops over a compact count run on fuel 5, which is enough for every number of 32 bits. The
-- loop of `handleIncomingData` runs on one round more than the buffer has bytes, which is enough
-- unless a message has a negative size; running out of fuel is an ending of its own.
-- `sendRequest` runs on two calls of itself, which are enough.
--
-- How a number stands in the bits of a float and of a double, JSON, and encodings other than
-- UTF-8 are the platform's and parameters: `Ieee`, `Json` and `Platform`, with what they document
-- as hypotheses.
--
-- Not modelled: sockets, TLS and the event loop, which are the platform's; listeners' own code;
-- the defaults of the configurations; objects for JSON that only copy fields; the classes of the
-- serdes for other types than strings, which hand out one object each.
pub mod Prelude
pub mod Buffer
pub mod Text
pub mod BasicTypes
pub mod Encoder
pub mod Decoder
pub mod JsMap
pub mod Network
pub mod BrokerConnection
pub mod ClusterMetadata
pub mod NetworkClient
pub mod Message
pub mod Producer
pub mod Consumer
pub mod Errors
pub mod Admin
pub mod Serde
pub mod Tests
