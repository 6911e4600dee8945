-- ===== src/Ingestion/Call.antt =====
-- call_data.h, and what the six call objects have in common: their members, and what one call of
-- `process_state` does to the outside.
use bb_monitor.Base.{ℕ, ◌==◌, Bool, false, Option, none, some, List, [], ◌++◌, Bytes, codes, ℤ}
use bb_monitor.Messages.{Label, Metric, LogLine, Intake}
use bb_monitor.ApiKey.{Metadata}
use bb_monitor.Ingestion.Factory.{SinkFactory}

pub data CallStatus : Type 0 where
  start reading reading_failed writing finish : CallStatus

-- The six classes derived from `call_data`.
pub data CallKind : Type 0 where
  put_metrics put_metrics2 put_logs put_logs2 put_intake put_intake2 : CallKind

abbrev kind_code : CallKind → ℕ
kind_code put_metrics = 0
kind_code put_metrics2 = 1
kind_code put_logs = 2
kind_code put_logs2 = 3
kind_code put_intake = 4
kind_code put_intake2 = 5

abbrev pub kind_eq : CallKind → CallKind → Bool
kind_eq a b = kind_code a == kind_code b

-- `sink` is the `_sink` of the streaming calls; the others use a local variable.
pub record CallData : Type 0 where
  pub kind : CallKind
  pub status : CallStatus
  pub sink : Option ℕ
  pub source_ip : Bytes
  pub msg_count : ℕ

abbrev pub new_call : CallKind → CallData
new_call kind = record { kind = kind; status = start; sink = none; source_ip = []; msg_count = 0 }

-- What gRPC has put into the context and the request of a call when it hands the call over, and the
-- readings of the clock, one for each message that is pushed.
pub record Input (D : Type 0) : Type 0 where
  pub metadata : Metadata
  pub metrics : List (Metric D)
  pub logs : List LogLine
  pub intakes : List Intake
  pub now : ℕ → ℤ

-- What is asked of the stream or the responder: `FinishWithError`, `Read`, `Finish`; or `delete this`;
-- or a failed `GPR_ASSERT`.
pub data Reply : Type 0 where
  finish_with_error : Bytes → Reply
  read_next : Reply
  finish_with : ℕ → Reply
  deleted : Reply
  aborted : Reply

-- `call` is `none` after `delete this`; `spawned` says that a new object of the same class was made.
pub record Effect (D : Type 0) : Type 0 where
  pub call : Option CallData
  pub factory : SinkFactory D
  pub spawned : Bool
  pub reply : Reply

module _ {D : Type 0} where
  abbrev pub goes_on : CallData → SinkFactory D → Bool → Reply → Effect D
  goes_on c f spawned reply = record {
    call = some c;
    factory = f;
    spawned = spawned;
    reply = reply;
  }

  abbrev pub delete_this : SinkFactory D → Effect D
  delete_this f = record { call = none; factory = f; spawned = false; reply = deleted }

  abbrev pub abort : CallData → SinkFactory D → Effect D
  abort c f = goes_on c f false aborted

-- The message of the status `UNAUTHENTICATED`.
abbrev pub auth_error : Bytes → Bytes
auth_error api_key = codes "authentication failed for key: " ++ api_key

abbrev pub copy_label : Label → Label
copy_label l = record { key = l.key; value = l.value }
