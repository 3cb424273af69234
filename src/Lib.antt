-- ===== src/Lib.antt =====
-- The packet codec, the stream framing and the authentication algorithms of the authentication
-- transmission system, a C++ program that sends text and files by UDP and authenticates them with
-- TESLA, natively (a MAC for each packet) or improved (a fast tag for each group of packets, and
-- SAMD tags over the rows of a KS+RS matrix that locate the bad packets of a group).
--
-- How the parts interact. A sender makes a key chain, computes MACs or tags of its packets with the
-- data key of their interval, and sends datagrams; the key of an interval is disclosed in a later
-- datagram. A receiver holds the chain's commitment and a trusted configuration of the round from a
-- TCP connection, decodes datagrams under that configuration, checks disclosed keys against the
-- commitment, and verifies groups of packets with the strategy of the round.
--
-- Which file models what (paths from the repository's root):
--   Prelude      tests, lists over the native numbers, results of code that throws
--   Wire         common/protocol/src/BinaryCodecUtilities.h; Wire/Failure has the error codes of
--                ProtocolTypes.h, Wire/RoundTrip the laws of integers in network order
--   Udp          common/protocol/src/UdpAuthenticationPacket.cpp (Context: the round's
--                configuration; Packet: the packets) and UdpAuthenticationPacketCodec.cpp (Encode:
--                vecEncode; Decode: resDecodeHeader and resDecode); Layout, Fields, Pieces,
--                RoundTrip, Canonical, Header and Total hold the wire format and the laws
--   Tcp          common/protocol/src/TcpFrame.cpp (Frame: TcpFrameCodec; Stream: batConsume of
--                TcpFrameStreamDecoder); Rounds, Loop, Fragments, Delivery and RoundTrip hold the laws
--   Crypto       common/crypto: the provider's interface, bDigestEquals, and KeyChain.cpp
--                (KeyChain: keyCreate, digDataKey, bVerifyDisclosedKey; Chains: the laws)
--   Tesla        common/tesla: Input (AuthenticationPacketInput.cpp), Encoder
--                (AuthenticationInputEncoder.cpp), Mac (TeslaMac.cpp and digAggregateMacList), KsRs
--                (KsRsVerifier of KsRsMatrix.cpp, and vecAggregate), Native and Improved (the two
--                strategies); Injective, GroupInjective, Located, Location, Genuine, NativeLaws, NativeStatus and
--                ImprovedLaws hold the laws
--   Workload     common/workload/src/FileWorkload.cpp (File); Recovery holds the round trip
--   Round        common/tesla: Parameters (AuthenticationRoundParameters.cpp), Context and Store
--                (ReceiverAuthenticationContextStore.cpp); Intervals, Configuration, Bijection and
--                Lookup hold the laws
--   Receiver     common/tesla/src/AuthenticationReceiverRuntime.cpp, the handlers of one context:
--                State (its members), Observe (slots, candidates and what is reported), Timeline
--                (optIntervalStartTimestamp, bIsPacketTimeSafe, pauses), Steps (handlers that may
--                throw), Native and Improved with Attack (the judgement of an interval), Finish and
--                Keys (disclosed keys and the end of a round), Datagram (processDatagramLocked),
--                Timeout (deadlines and stop); Frame, Outcome, Baseline, Tidy and Completion hold
--                the laws
--   Upload       common/tesla/src/FileUploadSession.cpp (Session); Invariant and Transfer hold the
--                laws
--   Authority    common/tesla/src/AuthenticationAuthority.cpp and SenderAuthenticationContext.cpp
--                (Issue); Unique and Accepted hold the laws
--   Metrics      common/metrics/src/CommunicationCost.cpp (Cost); Counting holds the law
-- An Examples module beside each part has concrete data at which its theorems apply.
--
-- How the code is rendered. A number is a natural number, with the range of its C++ type as a
-- hypothesis where a theorem needs it, and wrap-around written out where the code relies on it. A
-- byte is a number below 256, a block or digest is a list of 32 bytes. Code that throws returns a
-- result whose error is the class of the exception, without its text; a handler is a function of
-- that result, and an exception that no handler of a function names is `none`. A `std::variant` is
-- a data type, a `std::optional` an option. An object that changes, such as the stream decoder, is
-- passed in and returned.
--
-- Fuel. The loop of batConsume runs on as many rounds as there are pending bytes, which is enough,
-- since a round that goes on takes at least five of them. The loop over the groups of an interval
-- runs on as many rounds as the interval has packets; each round takes one of them at least, as a
-- group's size is not 0. All other loops are structural.
--
-- Parameters. The hash and the HMAC of the crypto library are the two functions of the provider's
-- record; where security rests on the hash, a theorem has a collision as its other case. The JSON
-- library is a test whether a text is one JSON object. The random provider is a function on a state of
-- its own, which may throw. None of these is assumed to have any property, but that the provider made
-- for an algorithm names that algorithm, where a theorem says so.
--
-- The receiver is modelled for a runtime without a metric handler; with one, the handlers also sum
-- up times and byte counts, which nothing else reads. Its matrix is that of the round's group size and
-- threshold, and is a parameter. What it reports is kept without the texts of reasons and tags
-- and without the time of the report; the checks of the constructors of what it reports are modelled, for
-- a clock that is past its epoch, and an exception of theirs ends or is caught as the code has it.
--
-- Not modelled: the OpenSSL calls, sockets, threads and timers, the graphical
-- programs, the JSON form of control messages, the measurement of time (it changes no result), the
-- construction of the KS+RS matrix, the queue of the receiver and its maps over all contexts, and the
-- state machine of the sender.
pub mod Prelude
pub mod Wire
pub mod Workload
pub mod Round
pub mod Receiver
pub mod Metrics
pub mod Authority
pub mod Upload
pub mod Udp
pub mod Tcp
pub mod Crypto
pub mod Tesla
