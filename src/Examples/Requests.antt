-- ===== src/Examples/Requests.antt =====
-- The requests, their counters and their limits at concrete ones.
use triviabot.Common.{
  ℕ, ◌+◌, ◌≡◌, refl, true, ◌&&◌, [], ◌∷◌, ◌++◌, none, some, arith, lookup, get_elem?, ◌==◌,
  if◌then◌else◌,
}
use triviabot.Text.{Text, ascii, find, starts_with, take, drop}
use triviabot.Web.Queues.{FireAndForget, post_webhook, webhook_request, webhook_host, fireandforget}
use triviabot.Web.Queues.Order.{
  History, submit, hand_on, begin, next, hook, work, start, share, requests_dealt,
}
use triviabot.Web.Counters.{Stats, count_at, codes_at, statdump}
use triviabot.Web.Counters.Conserve.{
  requests_of, errors_of, answers_of, reported, tally, statdump_conserves,
}
use triviabot.Web.Requests.{Response, result, Web, Env, getinterface, request_on, web_request}
use triviabot.Web.Requests.Parts.{sent, noted}
use triviabot.Web.Requests.Answers.{Counted, text_of, has_status, web_request-post}

abbrev hook_url : Text
hook_url = ascii "https://discord.com/api/webhooks/1/a"

-- One web hook is posted.
abbrev posted : History
posted = submit (post_webhook hook_url [] 7) (webhook_request hook_url [] 7) start

abbrev handed_on : History
handed_on = hand_on 0 (fireandforget 0 posted.queues) posted

requests_dealt_example : handed_on.sent 0 ++ handed_on.queues.faf 0 ≡ share 0 0 handed_on.submitted
requests_dealt_example =
    requests_dealt (next (next begin (hook hook_url [] 7 start)) (work 0 posted (omega arith))) 0

path_of_hook : (webhook_request hook_url [] 7).path ≡ ascii "/api/webhooks/1/a"
unfolding webhook_request webhook_host find starts_with take drop
path_of_hook = refl

abbrev iface : Text
iface = ascii "10.0.0.1"

abbrev some_stats : Stats
some_stats = record {
  statuscodes = (iface, (200, 2) ∷ (404, 1) ∷ []) ∷ [];
  requests = (iface, 3) ∷ [];
  errors = [];
}

statdump_conserves_example :
    (reported (requests_of iface) (statdump (iface ∷ []) some_stats).0
        + count_at iface (statdump (iface ∷ []) some_stats).1.requests
      ≡ count_at iface some_stats.requests)
    × (reported (errors_of iface) (statdump (iface ∷ []) some_stats).0
          + count_at iface (statdump (iface ∷ []) some_stats).1.errors
        ≡ count_at iface some_stats.errors)
    × ((c : ℕ)
        → reported (answers_of c iface) (statdump (iface ∷ []) some_stats).0
            + tally c (codes_at iface (statdump (iface ∷ []) some_stats).1.statuscodes)
          ≡ tally c (codes_at iface some_stats.statuscodes))
statdump_conserves_example = statdump_conserves (iface ∷ []) some_stats iface

-- An answer that uses up the limit of its channel for five seconds.
abbrev used_up : Response
used_up = record {
  status = 204;
  body = [];
  remaining = ascii "0";
  retry_after = [];
  reset_after = ascii "5";
  global = [];
}

abbrev an_env : Env
an_env = record {
  interfaces = iface ∷ [];
  bot = true;
  now = 1000;
  answered_at = 1001;
  reply = result used_up;
}

abbrev a_post : FireAndForget
a_post = record { host = ascii "h"; path = ascii "/p"; body = ascii "{}"; channel_id = 7 }

abbrev a_web : Web
a_web = record {
  channellock = [];
  webhooks = [];
  interface_index = 0;
  stats = some_stats;
  out = [];
}

abbrev answered : Text × Web
answered = request_on an_env iface a_post a_web

abbrev next_env : Env
next_env = record an_env { now = 1003 }

web_request_first : web_request an_env a_post a_web ≡ some (answered.0, answered.1)
unfolding web_request getinterface
web_request_first = refl

abbrev turned : Web
turned = record a_web { interface_index = 0 }

abbrev limited : Web
limited = noted an_env iface a_post used_up (sent an_env iface a_post turned)

web_request-post_example :
    (i : Text) × (get_elem? {A = Text} (iface ∷ []) 0 ≡ some i)
    × Counted (result used_up) i some_stats answered.1.stats
    × (answered.0 ≡ text_of (result used_up))
    × ((c : ℕ)
        → lookup c answered.1.webhooks ≡ (
            if has_status 404 (result used_up) && true && 7 == c
            then none
            else lookup c a_web.webhooks))
web_request-post_example =
    web_request-post an_env a_post a_web answered.1 answered.0 refl web_request_first
