-- ===== src/Stat.antt =====
-- src/stat.c and src/stat.h: the statistics of each traffic class. `State` holds the counters and
-- the backlog, `Common` what each measurement adds to them, `Sent`, `Received` and `Latency` the
-- events of the Tx and Rx threads, `Period` the collection intervals and the workload; the other
-- modules prove what these do.
pub mod State
pub mod Common
pub mod Sent
pub mod Received
pub mod Latency
pub mod Period
pub mod Extremes
pub mod Stamps
pub mod RoundTrip
pub mod Once
