-- ===== src/Rpc/Reply.antt =====
-- dhtcore/include/dhtcore/RpcManager.h: what a query's callback is given.
use dhtinspector.Common.{ℕ, Bool, true, false, Option, none, List, []}
use dhtinspector.Endpoint.{Endpoint}
use dhtinspector.Krpc.{Message, MessageType}
use dhtinspector.Common.Ints.{pos}
use dhtinspector.Bencode.{built, invalid}

-- RpcReply::Status.
pub data ReplyStatus : Type 0 where
  response error_status timeout throttled : ReplyStatus

-- An rtt of -1 is `none`.
pub record RpcReply : Type 0 where
  pub status : ReplyStatus
  pub message : Message
  pub datagram : List ℕ
  pub request : List ℕ
  pub from : Endpoint
  pub rtt_ms : Option ℕ

abbrev pub is_response : ReplyStatus → Bool
is_response response = true
is_response _ = false

-- A Message as it is constructed.
abbrev pub empty_message : Message
empty_message = record {
  type = MessageType.query;
  transaction_id = [];
  method = [];
  body = built invalid;
  error_code = pos 0;
  error_message = [];
  version = [];
  reported_address = none;
  read_only = false;
}
