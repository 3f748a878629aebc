-- ===== src/Access/Feeds.antt =====
-- The credentials of ingest feeds and the handler that checks them: backend/internal/auth/feedtoken.go,
-- backend/internal/ingest/feedauth and BearerToken of backend/internal/ingest/validate.go. The
-- hash, and the text of the random bytes of a token, are parameters.
pub mod Checked
use siem_v.Prelude.{
  ℕ, zero, suc, Bool, true, false, not, ◌&&◌, ◌||◌, Option, none, some, List, [], ◌∷◌, ◌++◌, any,
  length, ltb, leb, ◌==◌, if◌then◌else◌,
}
use siem_v.Prelude.Text.{Str, str, str_eq, trim_space, to_lower}
use siem_v.Prelude.Time.{Time, Duration, pos, ltb_ℤ, time_sub, zero_time, minute}
use siem_v.Prelude.Maps.{Map, lookup, put}
use siem_v.Prelude.Results.{Result, ok, err}
use siem_v.Access.Sessions.{take}

pub record FeedToken : Type 0 where
  pub feed_id : Str
  pub secret : Str

abbrev pub has_dot : Str → Bool
has_dot s = any (λ c. c == b'.') s

-- `secret` is the text of the random bytes, if they can be read.
unfoldable pub new_feed_token : Str → Option Str → Option FeedToken
new_feed_token feed_id none = none
new_feed_token feed_id (some secret) =
    if str_eq feed_id [] || has_dot feed_id
    then none
    else some (record { feed_id = feed_id; secret = secret })

unfoldable pub encode : FeedToken → Str
encode t = t.feed_id ++ b'.' ∷ t.secret

-- strings.Split(wire, ".")
unfoldable pub add_byte : ℕ → List Str → List Str
add_byte c [] = (c ∷ []) ∷ []
add_byte c (p ∷ parts) = (c ∷ p) ∷ parts

unfoldable pub split_dots : Str → List Str
split_dots [] = [] ∷ []
split_dots (c ∷ s) = let rest = split_dots s in if c == b'.' then [] ∷ rest else add_byte c rest

unfoldable pub two_parts : List Str → Option (Str × Str)
two_parts (a ∷ b ∷ []) = if str_eq a [] || str_eq b [] then none else some (a, b)
two_parts [] = none
two_parts (a ∷ []) = none
two_parts (a ∷ b ∷ c ∷ rest) = none

-- `SplitFeedToken`
unfoldable pub split_feed_token : Str → Option (Str × Str)
split_feed_token wire = two_parts (split_dots wire)

module _ (hash : Str → Str) where
  -- An unset credential matches nothing.
  unfoldable pub feed_secret_matches : Str → Str → Bool
  feed_secret_matches presented stored_hash =
      if str_eq stored_hash [] then false else str_eq (hash presented) stored_hash

pub record Feed : Type 0 where
  pub id : Str
  pub tenant_id : Str
  pub provider : Str
  pub name : Str
  pub token_hash : Str

pub record Store : Type 0 where
  pub by_id : Map Feed
  pub is_loaded : Bool

unfoldable pub new_store : Store
new_store = record { by_id = []; is_loaded = false }

unfoldable pub index_feeds : List Feed → Map Feed → Map Feed
index_feeds [] next = next
index_feeds (f ∷ feeds) next = index_feeds feeds (put f.id f next)

-- `Refresh`, with what the lister answers: a list, or an error.
unfoldable pub refresh_store : Option (List Feed) → Store → Store
refresh_store none s = s
refresh_store (some feeds) s = record { by_id = index_feeds feeds []; is_loaded = true }

pub data Verdict : Type 0 where
  denied unavailable : Verdict
  allowed : Feed → Verdict

module _ (hash : Str → Str) where
  unfoldable pub check_feed : Str → Str → Option Feed → Verdict
  check_feed provider secret none = denied
  check_feed provider secret (some f) =
      if not (str_eq f.provider provider)
      then denied
      else if not (feed_secret_matches hash secret f.token_hash)
      then denied
      else allowed f

  unfoldable pub check_parts : Store → Str → Str → Option (Str × Str) → Verdict
  check_parts s provider path_feed_id none = denied
  check_parts s provider path_feed_id (some (token_feed_id, secret)) =
      if not (str_eq token_feed_id path_feed_id)
      then denied
      else check_feed provider secret (lookup path_feed_id s.by_id)

  -- `Check`
  unfoldable pub check : Store → Str → Str → Str → Verdict
  check s provider path_feed_id wire =
      if not s.is_loaded
      then unavailable
      else check_parts s provider path_feed_id (split_feed_token wire)

unfoldable pub drop : ℕ → Str → Str
drop zero s = s
drop (suc n) [] = []
drop (suc n) (c ∷ s) = drop n s

abbrev pub bearer_prefix : Str
bearer_prefix = str "bearer "

-- `ingest.BearerToken`
unfoldable pub bearer_token : Str → Str
bearer_token header =
    let h = trim_space header in
    if str_eq h []
    then []
    else if leb (length bearer_prefix) (length h)
        && str_eq (to_lower (take (length bearer_prefix) h)) (to_lower bearer_prefix)
    then trim_space (drop (length bearer_prefix) h)
    else h

-- The token parameter of the query is the fallback.
unfoldable pub credential_from : Str → Str → Str
credential_from authorization token =
    if not (str_eq (bearer_token authorization) []) then bearer_token authorization else token

-- The receiver that a feed is bound to: that of Cloudflare, or the general one.
pub data Receiver : Type 0 where
  logpush : Str → Str → Receiver
  vector_http : Str → Str → Str → Receiver

pub record Handler : Type 0 where
  pub store : Store
  pub has_logger : Bool
  pub receivers : Map Receiver
  pub last_refusal_log : Map Time

unfoldable pub receiver_of : Feed → Receiver
receiver_of f =
    if str_eq f.provider (str "cloudflare")
    then logpush f.tenant_id f.id
    else vector_http f.tenant_id f.id f.provider

unfoldable pub cached_receiver : Feed → Handler → Option Receiver → Receiver × Handler
cached_receiver f h (some r) = (r, h)
cached_receiver f h none =
    (receiver_of f, record h { receivers = put f.id (receiver_of f) h.receivers })

-- `receiverFor`
unfoldable pub receiver_for : Feed → Handler → Receiver × Handler
receiver_for f h = cached_receiver f h (lookup f.id h.receivers)

unfoldable pub time_or_zero : Option Time → Time
time_or_zero none = zero_time
time_or_zero (some t) = t

-- `logRefused`, with whether it writes.
unfoldable pub log_refused : Str → Time → Handler → Bool × Handler
log_refused feed_id now h =
    if not h.has_logger
    then (false, h)
    else if ltb_ℤ (time_sub now (time_or_zero (lookup feed_id h.last_refusal_log))) (pos minute)
    then (false, h)
    else (true, record h { last_refusal_log = put feed_id now h.last_refusal_log })

pub data Response : Type 0 where
  service_unavailable unauthorized : Response
  delivered : Feed → Receiver → Response

module _ (hash : Str → Str) where
  unfoldable pub respond : Str → Time → Verdict → Handler → Response × Handler
  respond feed_id now unavailable h = (service_unavailable, h)
  respond feed_id now denied h = (unauthorized, (log_refused feed_id now h).1)
  respond feed_id now (allowed f) h = let bound = receiver_for f h in (delivered f bound.0, bound.1)

  -- `ServeHTTP`: the provider and the feed of the path, the header and the token of the query.
  unfoldable pub serve_http : Str → Str → Str → Str → Time → Handler → Response × Handler
  serve_http provider feed_id authorization token now h =
      respond feed_id now
        (check hash h.store provider feed_id (credential_from authorization token)) h
