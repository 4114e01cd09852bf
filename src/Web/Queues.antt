-- ===== src/Web/Queues.antt =====
-- The fire-and-forget queues of modules/trivia/webrequest.cpp: later, post_webhook and the thread
-- fireandforget.
pub mod Order
use triviabot.Common.{
  ℕ, ◌+◌, ◌-◌, Bool, List, [], ◌∷◌, ◌++◌, Option, none, some, ltb, ◌==◌, if◌then◌else◌, length,
}
use triviabot.Text.{Text, ascii, take, drop, find}
use triviabot.Host.{Host}

-- fire_and_forget_t.
pub record FireAndForget : Type 0 where
  pub host : Text
  pub path : Text
  pub body : Text
  pub channel_id : ℕ

abbrev pub fire_and_forget_queues : ℕ
fire_and_forget_queues = 10

-- The array `faf` and `faf_index`.
pub record Queues : Type 0 where
  pub faf : ℕ → List FireAndForget
  pub faf_index : ℕ

-- One place of an array is written.
unfoldable pub put_at {ℓ} : {A : Type ℓ} → ℕ → A → (ℕ → A) → ℕ → A
put_at i a array j = if i == j then a else array j

-- The queue that `faf_index` names takes the request, and the index moves on.
unfoldable pub push : FireAndForget → Queues → Queues
push f q = record {
  faf = put_at q.faf_index (q.faf q.faf_index ++ f ∷ []) q.faf;
  faf_index = if ltb (fire_and_forget_queues - 1) (q.faf_index + 1) then 0 else q.faf_index + 1;
}

unfoldable pub backend_host : (dev : Bool) → Text
backend_host dev = if dev then ascii "https://beta.brainbox.cc" else ascii "triviabot.co.uk"

-- BACKEND_PATH_DEV and BACKEND_PATH_LIVE are the same text.
unfoldable pub backend_path : Host → Text → Text
backend_path host endpoint = host.format (ascii "/api/{0}") (endpoint ∷ [])

unfoldable pub later_request : Host → (dev : Bool) → (path body : Text) → FireAndForget
later_request host dev path body = record {
  host = backend_host dev;
  path = backend_path host path;
  body = body;
  channel_id = 0;
}

unfoldable pub later : Host → (dev : Bool) → (path body : Text) → Queues → Queues
later host dev path body q = push (later_request host dev path body) q

-- `webhook_url.substr(0, webhook_url.find("/api/"))`: the whole of it where nothing is found.
unfoldable pub webhook_host : Text → Text
webhook_host webhook_url = elim (find (ascii "/api/") webhook_url) [
  | none ↦ webhook_url
  | some i ↦ take i webhook_url
]

unfoldable pub webhook_request : (webhook_url embed : Text) → (channel_id : ℕ) → FireAndForget
webhook_request webhook_url embed channel_id = record {
  host = webhook_host webhook_url;
  path = drop (length (webhook_host webhook_url)) webhook_url;
  body = ascii "{\"content\":\"\", \"embeds\":[" ++ embed ++ ascii "]}";
  channel_id = channel_id;
}

unfoldable pub post_webhook : (webhook_url embed : Text) → (channel_id : ℕ) → Queues → Queues
post_webhook webhook_url embed channel_id q = push (webhook_request webhook_url embed channel_id) q

-- One round of the loop of the thread fireandforget: the request that it hands to web_request, if
-- its queue has one.
unfoldable pub fireandforget : (queue_index : ℕ) → Queues → Option FireAndForget × Queues
fireandforget queue_index q = elim (q.faf queue_index) [
  | [] ↦ (none, q)
  | f ∷ fs ↦ (some f, record q { faf = put_at queue_index fs q.faf })
]
