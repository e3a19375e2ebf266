-- ===== src/Sync/Connect.antt =====
-- The answers of one connection attempt: `connect_and_stream` and the readers of a 403 body in
-- crates/scenery-daemon/src/sync/sse_client.rs. The request and the stream are parameters.
pub mod Revoked
use vectorhawkd.Base.{
  ℕ, String, Bool, true, false, ◌&&◌, Option, none, some, ◌==◌, eqb, ltb, leb, if◌then◌else◌,
}
use vectorhawkd.Base.Json
use vectorhawkd.Base.Json.{Json, get, as_str}

pub data ConnectResult : Type 0 where
  reconnect : (new_last_id : Option String) → ConnectResult
  unauthorized : ConnectResult
  channel_closed : ConnectResult
  revoked : ConnectResult
  user_revoked : ConnectResult
  error : ConnectResult

abbrev pub is_text : String → Option Json → Bool
is_text text (some (Json.string s)) = s == text
is_text text _ = false

-- `v.get("detail").cloned().or(Some(v))`
abbrev detail_or_self : Json → Option Json → Json
detail_or_self v none = v
detail_or_self v (some d) = d

-- Both readers, which differ in the code; a body that is no JSON is `none`.
unfoldable pub has_code : String → Option Json → Bool
has_code code none = false
has_code code (some v) = is_text code (get "code" (detail_or_self v (get "detail" v)))

unfoldable pub is_device_revoked_body : Option Json → Bool
unfolding has_code
is_device_revoked_body body = has_code "device_revoked" body

unfoldable pub is_user_revoked_body : Option Json → Bool
unfolding has_code
is_user_revoked_body body = has_code "user_revoked" body

-- How the stream ended, with the last event id that it left.
pub data StreamEnd : Type 0 where
  eof watchdog : Option String → StreamEnd
  closed : StreamEnd
  failed : StreamEnd

unfoldable pub stream_result : StreamEnd → ConnectResult
stream_result (eof id) = reconnect id
stream_result (watchdog id) = reconnect id
stream_result closed = channel_closed
stream_result failed = error

pub record Response : Type 0 where
  pub status : ℕ
  pub body : Option Json
  pub stream : StreamEnd

-- `none`: no client, or no answer.
unfoldable pub connect_and_stream : Option Response → ConnectResult
unfolding stream_result is_device_revoked_body is_user_revoked_body
connect_and_stream none = error
connect_and_stream (some resp) =
    if eqb resp.status 401
    then unauthorized
    else if eqb resp.status 403
    then (if is_device_revoked_body resp.body
        then revoked
        else if is_user_revoked_body resp.body
        then user_revoked
        else error)
    else if leb 200 resp.status && ltb resp.status 300
    then stream_result resp.stream
    else error
