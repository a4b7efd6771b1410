-- ===== src/Metrics.antt =====
-- metrics: counters, gauges and histograms. `F` stands for float64, with its operations as arguments.
pub mod LabelValues
pub mod Space
pub mod Generic
pub mod Graphite
pub mod Influx
pub mod Cloudwatch2
pub mod Ratemap
pub mod Emit
pub mod Dogstatsd
pub mod Influxstatsd
pub mod Statsd
mod Tests
