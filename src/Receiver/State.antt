-- ===== src/Receiver/State.antt =====
-- The members of the receiver runtime that concern one context. A runtime without a metric handler
-- is modelled, so that there is no metric collector. A candidate's hash is the text of a SHA-256.
use authentication_transmiss.Prelude.{[], List, none, Option, Bool, ℕ}
use authentication_transmiss.Udp.Packet.{DataPacket, Packet}
use authentication_transmiss.Round.Context.{ReceiverContext}
use authentication_transmiss.Tesla.KsRs.{LocationStep}
use authentication_transmiss.Tesla.Improved.{VerificationPath}

pub data PacketStatus : Type 0 where
  empty pending passed failed : PacketStatus

pub data PacketSource : Type 0 where
  normal_sender attack_injection : PacketSource

pub record PacketRecord : Type 0 where
  pub packet : Option DataPacket
  pub status : PacketStatus
  pub raw_datagram : List ℕ
  pub receive_timestamp : ℕ
  pub observation_event_id : ℕ
  pub candidate_hash : List ℕ
  pub duplicate_count : ℕ
  pub actual_source_ip : List ℕ
  pub source : PacketSource

-- `PacketRecord{}`.
abbrev pub empty_record : PacketRecord
empty_record = record {
  packet = none;
  status = empty;
  raw_datagram = [];
  receive_timestamp = 0;
  observation_event_id = 0;
  candidate_hash = [];
  duplicate_count = 0;
  actual_source_ip = [];
  source = normal_sender;
}

pub record CandidateRecord : Type 0 where
  pub candidate : DataPacket
  pub status : PacketStatus
  pub raw_datagram : List ℕ
  pub receive_timestamp : ℕ
  pub observation_event_id : ℕ
  pub candidate_hash : List ℕ
  pub duplicate_count : ℕ
  pub actual_source_ip : List ℕ
  pub source : PacketSource

pub record TimelineSegment : Type 0 where
  pub first_logical_interval : ℕ
  pub start_timestamp : ℕ

pub record ReceiverState : Type 0 where
  pub context : ReceiverContext
  pub round_id : List ℕ
  pub packet_records : List PacketRecord
  pub additional_candidates : List (ℕ × List CandidateRecord)
  pub disclosed_keys : List (ℕ × List ℕ)
  pub verified_intervals : List ℕ
  pub timeline : List TimelineSegment
  pub pause_after_interval : Option ℕ
  pub pause_timestamp : ℕ
  pub clock_tolerance : ℕ
  pub received_packet_count : ℕ
  pub active : Bool
  pub paused : Bool
  pub protocol_incomplete : Bool
  pub result_reported : Bool

pub record QueuedDatagram : Type 0 where
  pub datagram : List ℕ
  pub receive_timestamp : ℕ
  pub actual_source_ip : List ℕ
  pub source : PacketSource

-- protocol::AuthenticationFailureType, the kinds that the receiver reports.
pub data FailureType : Type 0 where
  mac_failed_type tampered_variant fast_group_failed detection_threshold_exceeded_type
        replay_duplicate :
      FailureType
  replay_late missing_packet_type incomplete_group_tags_type unverifiable_missing_baseline
        protocol_error :
      FailureType

-- protocol::ObservationSeverity.
pub data Severity : Type 0 where
  information warning error : Severity

-- What a packet's observation says beside the members of the context; the reason's text is left out.
pub record PacketObservation : Type 0 where
  pub event_id : ℕ
  pub receive_timestamp : ℕ
  pub actual_source_ip : List ℕ
  pub source : PacketSource
  pub packet : Packet
  pub status : PacketStatus
  pub duplicate_count : ℕ
  pub raw_datagram : List ℕ

-- A failure's, without the texts of reason and tags and without the time of the report.
pub record PacketFailure : Type 0 where
  pub event_id : ℕ
  pub packet_event_id : ℕ
  pub severity : Severity
  pub failure : FailureType
  pub actual_source_ip : List ℕ
  pub interval_index : ℕ
  pub packet_index : ℕ
  pub group_index : Option ℕ
  pub candidate_hash : List ℕ
  pub located : List ℕ
  pub duplicate_count : ℕ

pub record GroupObservation : Type 0 where
  pub event_id : ℕ
  pub group_index : ℕ
  pub first_packet : ℕ
  pub last_packet : ℕ
  pub path : VerificationPath
  pub fast_group_tag_matched : Bool
  pub threshold_exceeded : Bool
  pub located : List ℕ
  pub steps : List LocationStep

pub data Observation : Type 0 where
  packet_observation : PacketObservation → Observation
  packet_failure : PacketFailure → Observation
  group_observation : GroupObservation → Observation

pub data ResultStatus : Type 0 where
  completed authentication_failed_result protocol_incomplete_result verification_timeout stopped :
      ResultStatus

-- What a round's result carries of the payload: the text found, or the bytes of the file and their
-- digest.
pub data ResultDetails : Type 0 where
  text_result : List ℕ → ResultDetails
  file_result : ℕ → List ℕ → Option (List ℕ) → ResultDetails

pub record RuntimeResult : Type 0 where
  pub status : ResultStatus
  pub expected_count : ℕ
  pub received_count : ℕ
  pub authenticated_count : ℕ
  pub failed_count : ℕ
  pub missing_count : ℕ
  pub details : ResultDetails

-- The state of the context at work, and the members of the runtime that its handlers write:
-- whether there is an observation handler, the next event's number, and what is to be emitted.
pub record Work : Type 0 where
  pub receiver : ReceiverState
  pub observing : Bool
  pub next_event_id : ℕ
  pub observations : List Observation
  pub results : List RuntimeResult
