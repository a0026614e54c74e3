-- ===== src/Database/Session/Tests.antt =====
-- The session of a cookie.
use booking_hotel.Prelude.{◌≡◌, some, JsString, js, refl}
use booking_hotel.Database.Session.{session_from_cookie, sid_here, sid_from}

abbrev same : JsString → JsString
same s = s

cookie_sid : session_from_cookie same (some (js "a=1; sid=x7; b=2")) ≡ some (js "x7")
unfolding session_from_cookie sid_here sid_from js
cookie_sid = refl
