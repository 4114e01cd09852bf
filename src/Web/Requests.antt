-- ===== src/Web/Requests.antt =====
-- getinterface and web_request of modules/trivia/webrequest.cpp: the choice of a network interface,
-- the rate limits, and what becomes of the answer.
pub mod Parts
pub mod Limits
pub mod Answers
pub mod Interfaces
use triviabot.Common.{
  ℕ, ◌+◌, ◌-◌, ◌%◌, Bool, true, false, ◌&&◌, not, List, [], ◌∷◌, ◌++◌, Option, none, some, ltb, leb,
  ◌==◌, if◌then◌else◌, u32, u64, length, get_elem?, is_empty, lookup, insert, erase,
}
use triviabot.Text.{Text, read_digits, from_string, ltrim, values64}
use triviabot.Web.Queues.{FireAndForget}
use triviabot.Web.Counters.{Stats, count_answer, count_error}

-- getinterface: `interfaces[curindex]`, where there is such an element, and interface_index after it.
unfoldable pub getinterface : (interfaces : List Text) → (interface_index : ℕ) → Option Text × ℕ
getinterface interfaces interface_index = (
  get_elem? interfaces interface_index,
  if leb (length interfaces) (u32 (interface_index + 1)) then 0 else u32 (interface_index + 1),
)

-- What httplib gives back: the status, the body, and the headers about rate limits, which are empty
-- where they are missing.
pub record Response : Type 0 where
  pub status : ℕ
  pub body : Text
  pub remaining : Text
  pub retry_after : Text
  pub reset_after : Text
  pub global : Text

-- A call of httplib has no result, has one, or throws.
pub data Reply : Type 0 where
  no_result : Reply
  result : Response → Reply
  thrown : Reply

-- What a request does: it sleeps, calls Get or Post of httplib (with the API key or without), and
-- writes to the database that a web hook is gone or that an interface is limited: the values of
-- `rl_when` and `rl_seconds` in the row that is inserted, and those that a row already there takes. It
-- notes the limit of a channel in channellock.
pub data Action : Type 0 where
  sleep : (seconds : ℕ) → Action
  get : (host path iface : Text) → (api_key : Bool) → Action
  post : (host path body iface : Text) → (api_key : Bool) → Action
  webhook_gone : (channel_id : ℕ) → Action
  channel_limited : (channel_id seconds when_ : ℕ) → Action
  interface_limited :
      (iface : Text) → (rl_when rl_seconds updated_when updated_seconds : ℕ) → Action

-- What the requests share: channellock, which holds seconds and a time for a channel, the web hooks
-- of the module, interface_index, the counters, and what has been done, the newest first.
pub record Web : Type 0 where
  pub channellock : List (ℕ × (ℕ × ℕ))
  pub webhooks : List (ℕ × Text)
  pub interface_index : ℕ
  pub stats : Stats
  pub out : List Action

-- What a call meets: the interfaces of the machine, whether `bot` is set, the clock before the call
-- of httplib and behind it, and what that call gives.
pub record Env : Type 0 where
  pub interfaces : List Text
  pub bot : Bool
  pub now : ℕ
  pub answered_at : ℕ
  pub reply : Reply

unfoldable pub act : Action → Web → Web
act a w = record w { out = a ∷ w.out }

-- `from_string<time_t>`, as the `uint64_t` that it is stored in.
unfoldable pub from_string_time : Text → ℕ
unfolding ltrim read_digits
from_string_time s = elim (ltrim s) [
  | [] ↦ 0
  | c ∷ t ↦
      let minus = read_digits 0 t in
      let plus = if c == b'+' then minus else read_digits 0 (c ∷ t) in
      if c == b'-'
      then (if leb minus 9223372036854775808 then u64 (values64 - minus) else 9223372036854775808)
      else (if ltb plus 9223372036854775808 then plus else 9223372036854775807)
]

-- The wait for a limit that another request met on the channel.
unfoldable pub hold_back : (now channel_id : ℕ) → Web → Web
unfolding act
hold_back now channel_id w = elim (lookup channel_id w.channellock) [
  | none ↦ w
  | some (seconds, when_) ↦
      if ltb 0 seconds && ltb now (u64 (when_ + seconds)) then act (sleep seconds) w else w
]

-- A web hook that is not found is forgotten.
unfoldable pub forget_webhook : Env → FireAndForget → Response → Web → Web
unfolding act
forget_webhook env f res w =
    if leb 400 res.status && env.bot && res.status == 404
    then act (webhook_gone f.channel_id) (record w { webhooks = erase f.channel_id w.webhooks })
    else w

unfoldable pub limit_seconds : Response → ℕ
unfolding from_string_time
limit_seconds res =
    if is_empty res.retry_after
    then from_string_time res.reset_after
    else from_string_time res.retry_after

unfoldable pub is_limited : Response → Bool
is_limited res = not (is_empty res.remaining) && from_string values64 res.remaining == 0

-- The limit is noted, for the interface or for the channel.
unfoldable pub note_limit : Env → (iface : Text) → FireAndForget → Response → Web → Web
unfolding act
note_limit env iface f res w =
    if is_empty res.global
    then act (channel_limited f.channel_id (limit_seconds res) env.answered_at) (record w {
      channellock = insert f.channel_id (limit_seconds res, env.answered_at) w.channellock;
    })
    else let seconds = limit_seconds res in
      act (interface_limited iface seconds env.answered_at env.answered_at seconds) w

unfoldable pub heed_limit : Env → (iface : Text) → FireAndForget → Response → Web → Web
heed_limit env iface f res w = if is_limited res then note_limit env iface f res w else w

-- The thread sleeps behind noting a limit, while the others go on.
unfoldable pub wait_out : Response → Web → Web
unfolding act
wait_out res w =
    if is_limited res && ltb 0 (limit_seconds res) then act (sleep (limit_seconds res)) w else w

unfoldable pub obey_limit : Env → (iface : Text) → FireAndForget → Response → Web → Web
obey_limit env iface f res w = wait_out res (heed_limit env iface f res w)

unfoldable pub counted : (Stats → Stats) → Web → Web
counted f w = record w { stats = f w.stats }

-- `rv`: the body of an answer that is no error.
unfoldable pub good_body : Response → Text
good_body res = if ltb res.status 400 then res.body else []

-- What Get gives; it is not counted, and its rate limits are not read.
unfoldable pub after_get : (iface : Text) → Reply → Web → Text × Web
after_get iface no_result w = ([], w)
after_get iface (result res) w = (good_body res, w)
after_get iface thrown w = ([], counted (count_error iface) w)

unfoldable pub after_post : Env → (iface : Text) → FireAndForget → Reply → Web → Text × Web
after_post env iface f no_result w = ([], counted (count_error iface) w)
after_post env iface f (result res) w = (
  good_body res,
  counted (count_answer iface res.status) (obey_limit env iface f res (forget_webhook env f res w)),
)
after_post env iface f thrown w = ([], counted (count_error iface) w)

-- web_request behind getinterface.
unfoldable pub request_on : Env → (iface : Text) → FireAndForget → Web → Text × Web
unfolding act after_get
request_on env iface f w =
    let held = hold_back env.now f.channel_id w in
    let key = f.channel_id == 0 in
    if is_empty f.body
    then after_get iface env.reply (act (get f.host f.path iface key) held)
    else after_post env iface f env.reply (act (post f.host f.path f.body iface key) held)

-- web_request: `none` where getinterface reads past the end of the interfaces.
unfoldable pub web_request : Env → FireAndForget → Web → Option (Text × Web)
web_request env f w = elim (getinterface env.interfaces w.interface_index).0 [
  | none ↦ none
  | some iface ↦ some (
      request_on env iface f
        (record w { interface_index = (getinterface env.interfaces w.interface_index).1 }))
]
