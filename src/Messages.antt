-- ===== src/Messages.antt =====
-- The messages of proto/bb_monitor_sink.proto and the Avro records of
-- libraries/bb_monitor_utils/avro/{bb_avro_metrics,bb_avro_logline,dd_avro_intake}.h. `D` stands for
-- `double`: the code modelled here only carries such values along.
use bb_monitor.Base.{List, Bytes, ℤ}

pub record Label : Type 0 where
  pub key : Bytes
  pub value : Bytes

-- `Measurement`, with the case in which no member of the oneof is set.
pub data Sample (D : Type 0) : Type 0 where
  long_value : ℤ → Sample D
  double_value : D → Sample D
  lat_lon_value : D → D → Sample D
  not_set : Sample D

pub record Metric (D : Type 0) : Type 0 where
  pub ns : Bytes
  pub name : Bytes
  pub labels : List Label
  pub sample : Sample D
  pub timestamp : ℤ

pub record LogLine : Type 0 where
  pub id : Bytes
  pub agent : Bytes
  pub host : Bytes
  pub source : Bytes
  pub labels : List Label
  pub timestamp_ns : ℤ
  pub line : Bytes

pub record Intake : Type 0 where
  pub agent : Bytes
  pub content : Bytes
  pub timestamp : ℤ

-- The union of a metric's value, by its index: null, long, double, position.
pub data AvroValue (D : Type 0) : Type 0 where
  null : AvroValue D
  long : ℤ → AvroValue D
  double : D → AvroValue D
  position : D → D → AvroValue D

pub record AvroMetric (D : Type 0) : Type 0 where
  pub ns : Bytes
  pub name : Bytes
  pub labels : List Label
  pub value : AvroValue D
  pub timestamp : ℤ

pub record AvroLogline : Type 0 where
  pub id : Bytes
  pub agent : Bytes
  pub host : Bytes
  pub source : Bytes
  pub timestamp_ns : ℤ
  pub tags : List Label
  pub line : Bytes

pub record AvroIntake : Type 0 where
  pub agent : Bytes
  pub content : Bytes
  pub timestamp : ℤ
