-- ===== src/DoubleBuffer/Options/Tests.antt =====
-- double_buffer.go: a double buffer of capacity 2 that is made with options. Collectors are numbers, of
-- which 1 is Prometheus, 2 OpenTelemetry, and no other is valid.
use turbo_stream.Prelude.{◌||◌}
use turbo_stream.Prelude.Int.{pos, ◌==ℤ◌}
use turbo_stream.Outside
use turbo_stream.DoubleBuffer.{DoubleBuffer}
use turbo_stream.DoubleBuffer.Options.{Collectors}

abbrev collectors : Collectors
collectors = record { validate = λ c. (c ==ℤ pos 1) || (c ==ℤ pos 2); prometheus_collector = pos 1 }
