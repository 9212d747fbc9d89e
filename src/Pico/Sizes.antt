-- ===== src/Pico/Sizes.antt =====
-- The sizes of the messages (common_pico/src/lib.rs).
use locoloco.Common.{ℕ, ◌+◌}

abbrev pub payload_max_size : ℕ
payload_max_size = 256

abbrev pub header_size : ℕ
header_size = 3

abbrev pub request_max_size : ℕ
request_max_size = header_size + payload_max_size

abbrev pub response_max_size : ℕ
response_max_size = 1024
