-- ===== src/WebSocket/Length.antt =====
-- The length of a frame, written and read.
use geruest.Prelude.{ℕ, zero, suc, ◌^◌, ◌<◌, ◌≡◌, refl, ap, length, arith}
use geruest.WebSocket.{big_endian, read_uint64}

pub length-big_endian : (n len : ℕ) → length (big_endian n len) ≡ n
unfolding big_endian
length-big_endian zero len = refl
length-big_endian (suc n) len = ap suc (length-big_endian n len)

-- Eight bytes hold every number below 2 ^ 64.
pub read_uint64-big_endian : (len : ℕ) → len < 2 ^ 64 → read_uint64 0 (big_endian 8 len) ≡ len
unfolding read_uint64 big_endian
read_uint64-big_endian len h = omega arith
