-- ===== src/TraceSetup/Buffer.antt =====
-- The size that `calculate_buffer_parameters` (trace.c) gives to a buffer.
use idlestat.Base.{ℕ, ◌+◌, ◌*◌, ◌/◌, ◌%◌, ◌≡◌, ◌≤◌, ◌<◌, arith}
use idlestat.TraceSetup.{
  TraceBufferSettings, default_bufsize, interval_of, calculate_buffer_parameters,
}

-- The bytes per second that the source allows for: 20000 lines for idle states and 100 for
-- frequencies, of 196 bytes.
abbrev pub bytes_per_sec : ℕ
bytes_per_sec = 196 * (20000 + 100)

default_bufsize-eq : (p : ℕ) → default_bufsize p ≡ (3_939_600 * p) % 4_294_967_296 / 1024 + 1
unfolding default_bufsize
default_bufsize-eq p = omega arith

-- Where the buffer size is left open and the polling interval, or the duration in its place, is up to
-- 1090 seconds, the buffer of a CPU holds what the source expects of the interval, and at most one
-- kilobyte more than that.
pub calculate_buffer_parameters_lem :
    (duration : ℕ) (tbs : TraceBufferSettings)
    → tbs.percpu_buffer_size ≡ 0
    → interval_of duration tbs ≤ 1090
    → let size = (calculate_buffer_parameters duration tbs).percpu_buffer_size in
      (bytes_per_sec * interval_of duration tbs < size * 1024)
      × (size * 1024 ≤ bytes_per_sec * interval_of duration tbs + 1024)
unfolding calculate_buffer_parameters
calculate_buffer_parameters_lem duration tbs e l =
    ground (arith, default_bufsize-eq (interval_of duration tbs))

-- For an interval of 1091 seconds or more the 32-bit product wraps around, and the buffer is too small
-- for what the source expects.
pub calculate_buffer_parameters_wraps :
    (duration : ℕ) (tbs : TraceBufferSettings)
    → tbs.percpu_buffer_size ≡ 0
    → 1091 ≤ interval_of duration tbs
    → (calculate_buffer_parameters duration tbs).percpu_buffer_size * 1024
      < bytes_per_sec * interval_of duration tbs
unfolding calculate_buffer_parameters
calculate_buffer_parameters_wraps duration tbs e l =
    ground (arith, default_bufsize-eq (interval_of duration tbs))
