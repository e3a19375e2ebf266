-- ===== src/Frames/RoundTrip.antt =====
-- Reading back what was written.
use vectorhawkd.Base.{ℕ, ◌/◌, ◌%◌, ◌^◌, ◌<◌, ◌≡◌, refl, some, [], ◌∷◌, ◌++◌, length, arith, ok}
use vectorhawkd.Frames.{
  Bytes, to_be_bytes, from_be_bytes, read_exact, write_framed_blocking, read_framed_blocking,
}

from_be_bytes-to_be_bytes :
    (n : ℕ)
    → n < 4294967296
    → from_be_bytes (n / 16777216 % 256) (n / 65536 % 256) (n / 256 % 256) (n % 256) ≡ n
unfolding from_be_bytes
from_be_bytes-to_be_bytes n h = omega arith

read_exact-append : (body rest : Bytes) → read_exact (length body) (body ++ rest) ≡ ok (body, rest)
unfolding read_exact
read_exact-append [] rest = refl
read_exact-append (b ∷ body) rest = rw (read_exact-append body rest)

-- A frame written after nothing is read back whole, and what follows it is left to be read, if
-- the body's length fits the four bytes.
pub read_framed_blocking-write_framed_blocking :
    (body rest : Bytes)
    → length body < 2 ^ 32
    → read_framed_blocking (write_framed_blocking [] body ++ rest) ≡ ok (some (body, rest))
unfolding read_framed_blocking write_framed_blocking to_be_bytes
read_framed_blocking-write_framed_blocking body rest h =
    let n : length body % 2 ^ 32 ≡ length body = omega arith in
    rw (n, from_be_bytes-to_be_bytes (length body) h, read_exact-append body rest)
