-- ===== src/Sync/Connect/Revoked.antt =====
-- When a connection attempt ends the client for good.
use vectorhawkd.Base.{◌≡◌, true, Option, none, some, arith, ◌↔◌, refl, ◌≢◌}
use vectorhawkd.Sync.Connect.{
  revoked, StreamEnd, eof, watchdog, closed, failed, stream_result, Response, connect_and_stream,
  is_device_revoked_body,
}

stream_result-ne-revoked : (s : StreamEnd) → stream_result s ≢ revoked
unfolding stream_result
stream_result-ne-revoked (eof id) h = cc
stream_result-ne-revoked (watchdog id) h = cc
stream_result-ne-revoked closed h = cc
stream_result-ne-revoked failed h = cc

-- A connection attempt reports a revoked device exactly if the answer is a 403 whose body carries
-- the code of a revoked device.
pub connect_and_stream-revoked :
    (answer : Option Response)
    → (connect_and_stream answer ≡ revoked) ↔ (
        (resp : Response) × (answer ≡ some resp)
        × (resp.status ≡ 403)
        × (is_device_revoked_body resp.body ≡ true))
unfolding connect_and_stream
connect_and_stream-revoked none =
    (λ h. absurd (ground (arith, h)), λ h. absurd (ground (arith, h.1)))
connect_and_stream-revoked (some resp) = (
  λ h. (
    resp,
    refl,
    ground (arith, stream_result-ne-revoked resp.stream),
    ground (arith, stream_result-ne-revoked resp.stream),
  ),
  λ h. ground (arith, h.1, h.2, h.3),
)
