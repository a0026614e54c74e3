-- ===== src/Database/Session.antt =====
-- The session of a request, src/database/request-context.ts. `decodeURIComponent` is an argument.
mod Tests
use booking_hotel.Runtime.Errors.{ok}
use booking_hotel.Runtime.Platform.{Platform}
use booking_hotel.Runtime.World.{
  World, Action, RequestContext, pure, modify, random_uuid, ◌>>=◌, ◌>>◌,
}
use booking_hotel.Prelude.{
  js, Option-cases, ℕ, ◌≡◌, leb, ltb, ◌==◌, Bool, true, false, not, ◌&&◌, ◌||◌, Option, none, some,
  List, [], ◌∷◌, ◌+◌, JsString, if◌then◌else◌, length, is_space, arith, Bool-cases, inl, inr, refl,
}

-- A character of `[A-Za-z0-9._-]`.
abbrev pub session_char : ℕ → Bool
session_char x =
    (leb 65 x && leb x 90)
    || (leb 97 x && leb x 122)
    || (leb 48 x && leb x 57)
    || (x == 46)
    || (x == 95)
    || (x == 45)

unfoldable pub session_chars : JsString → Bool
session_chars [] = true
session_chars (x ∷ s) = session_char x && session_chars s

-- SESSION_ID_RE
unfoldable pub valid_session : JsString → Bool
unfolding session_chars
valid_session s = ltb 0 (length s) && leb (length s) 64 && session_chars s

-- The longest text before a semicolon.
unfoldable pub until_semicolon : JsString → JsString
until_semicolon [] = []
until_semicolon (x ∷ s) = let rest = until_semicolon s in if x == 59 then [] else x ∷ rest

-- What follows a prefix.
unfoldable pub after_prefix : JsString → JsString → Option JsString
after_prefix [] s = some s
after_prefix (x ∷ p) [] = none
after_prefix (x ∷ p) (y ∷ s) = let rest = after_prefix p s in if x == y then rest else none

unfoldable pub skip_spaces : JsString → JsString
unfolding is_space
skip_spaces [] = []
skip_spaces (x ∷ s) = let rest = skip_spaces s in if is_space x then rest else x ∷ s

abbrev pub not_blank : JsString → Option JsString
not_blank [] = none
not_blank (x ∷ s) = some (x ∷ s)

-- `sid=([^;]+)` at this place.
unfoldable pub sid_here : JsString → Option JsString
unfolding after_prefix until_semicolon js
sid_here s = elim (after_prefix (js "sid=") s) [
  | none ↦ none
  | some value ↦ not_blank (until_semicolon value)
]

-- The matches that begin with a semicolon.
unfoldable pub sid_from : JsString → Option JsString
unfolding sid_here skip_spaces
sid_from [] = none
sid_from (x ∷ s) =
    let rest = sid_from s in
    if x == 59 then elim (sid_here (skip_spaces s)) [ some v ↦ some v | none ↦ rest ] else rest

-- `sessionFromCookie`
unfoldable pub session_from_cookie : (JsString → JsString) → Option JsString → Option JsString
unfolding sid_here sid_from
session_from_cookie decode none = none
session_from_cookie decode (some cookie) = elim (sid_here cookie) [
  | some v ↦ some (decode v)
  | none ↦ elim (sid_from cookie) [ some v ↦ some (decode v) | none ↦ none ]
]

-- `fromHeader ?? sessionFromCookie(cookie)`
abbrev pub or_cookie : Option JsString → Option JsString → Option JsString
or_cookie (some s) cookie = some s
or_cookie none cookie = cookie

abbrev pub acceptable : Option JsString → Bool
acceptable none = false
acceptable (some s) = valid_session s

abbrev given_text : Option JsString → JsString
given_text none = []
given_text (some s) = s

abbrev fresh_context : JsString → RequestContext
fresh_context id = record {
  session_id = id;
  nodes = [];
  routes = [];
  headers_sent = false;
  headers = record {
    db_node = [];
    db_route = [];
    shards = [];
    shard_bucket = none;
    shard_fanout = none;
    shard_partial = [];
  };
}

module _ (P : Platform) (decode : JsString → JsString) where
  -- The session of a request, and whether it is new and goes into a cookie.
  unfoldable pub session_of : Option JsString → Option JsString → Action P (JsString × Bool)
  session_of header cookie =
      let given = or_cookie header (session_from_cookie decode cookie) in
      if acceptable given
      then pure (given_text given, false)
      else (random_uuid >>= λ id. pure (id, true))

  -- `requestContext.run({ … })`, which the handlers then run in.
  unfoldable pub enter : Option JsString → Option JsString → Action P JsString
  enter header cookie = do
    session ← session_of header cookie
    modify (λ w. record w { context = some (fresh_context session.0) })
    pure session.0

  -- Where the next UUID has the form of a session identifier, so has the session of every request:
  -- a well-formed one in the header is kept, and one that is malformed or missing is replaced.
  pub session_of-valid :
      (header cookie : Option JsString) (w : World P)
      → valid_session (P.js.uuid w.next_uuid) ≡ true
      → (id : JsString) × (fresh : Bool) × ((session_of header cookie w).0 ≡ ok (id, fresh))
        × (valid_session id ≡ true)
        × ((s : JsString) → header ≡ some s → valid_session s ≡ true → (id ≡ s) × (fresh ≡ false))
  unfolding session_of random_uuid
  session_of-valid header cookie w uuid =
      let given = or_cookie header (session_from_cookie decode cookie) in
      elim (Option-cases given) [
        | inl e ↦ (
          P.js.uuid w.next_uuid,
          true,
          ground (arith, e),
          uuid,
          λ s h v. absurd (ground (arith, e, h)),
        )
        | inr (s, e) ↦ elim (Bool-cases (valid_session s)) [
          | inl good ↦
              (s, false, ground (arith, e, good), good, λ s' h v. (ground (arith, e, h), refl))
          | inr bad ↦ (
            P.js.uuid w.next_uuid,
            true,
            ground (arith, e, bad),
            uuid,
            λ s' h v. absurd (ground (arith, e, h, bad, v)),
          )
        ]
      ]
