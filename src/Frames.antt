-- ===== src/Frames.antt =====
-- crates/scenery-daemon/src/protocol_frame.rs: frames with a four-byte length before the body.
-- A byte is a number below 256. The writer's own errors are not modelled; the reader reads
-- from the bytes that are there, after which the stream ends.
pub mod RoundTrip
use vectorhawkd.Base.{
  ℕ, zero, suc, ◌+◌, ◌-◌, ◌*◌, ◌/◌, ◌%◌, ◌^◌, Bool, Option, none, some, List, [], ◌∷◌, ◌++◌, length,
  take, Result, ok, err,
}

abbrev pub Bytes : Type 0
Bytes = List ℕ

pub data FrameError : Type 0 where
  unexpected_eof : FrameError

unfoldable pub to_be_bytes : ℕ → Bytes
to_be_bytes n = n / 16777216 % 256 ∷ (n / 65536 % 256 ∷ (n / 256 % 256 ∷ (n % 256 ∷ [])))

unfoldable pub from_be_bytes : ℕ → ℕ → ℕ → ℕ → ℕ
from_be_bytes a b c d = ((a * 256 + b) * 256 + c) * 256 + d

-- `body.len() as u32` keeps the low 32 bits.
unfoldable pub write_framed_blocking : Bytes → Bytes → Bytes
unfolding to_be_bytes
write_framed_blocking written body = written ++ (to_be_bytes (length body % 2 ^ 32) ++ body)

-- `read_exact` into `n` bytes: what was read and what is left.
unfoldable pub read_exact : ℕ → Bytes → Result FrameError (Bytes × Bytes)
read_exact zero stream = ok ([], stream)
read_exact (suc n) [] = err unexpected_eof
read_exact (suc n) (b ∷ stream) = elim (read_exact n stream) [
  | err e ↦ err e
  | ok (got, rest) ↦ ok (b ∷ got, rest)
]

abbrev with_body : Result FrameError (Bytes × Bytes) → Result FrameError (Option (Bytes × Bytes))
with_body (ok frame) = ok (some frame)
with_body (err e) = err e

-- `none` is a stream that ends before the four bytes of the length.
unfoldable pub read_framed_blocking : Bytes → Result FrameError (Option (Bytes × Bytes))
unfolding read_exact from_be_bytes
read_framed_blocking (a ∷ (b ∷ (c ∷ (d ∷ stream)))) =
    with_body (read_exact (from_be_bytes a b c d) stream)
read_framed_blocking _ = ok none
