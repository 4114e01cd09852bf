-- ===== src/Web/Requests/Limits.antt =====
-- A rate limit that one request meets holds the later ones back.
use triviabot.Common.{ℕ}
use triviabot.Text.{Text}
use triviabot.Web.Queues.{FireAndForget}
use triviabot.Web.Counters.{Stats}
use triviabot.Web.Requests.Parts.{IsElsewhere, sent, noted}
use triviabot.Web.Requests.{Response, Web, Env, wait_out, counted}

-- What the threads do while one of them, or none, sleeps: a request takes its interface, or waits and
-- is sent, on whatever channel; an answer is noted, unless it is a limit of the channel `c`; a thread
-- sleeps behind its answer; and the counters are raised.
pub data Meanwhile (c : ℕ) (w : Web) : Web → Type 0 where
  here : Meanwhile c w w
  turns : {v : Web} → Meanwhile c w v → (n : ℕ) → Meanwhile c w (record v { interface_index = n })
  sends :
      {v : Web}
      → Meanwhile c w v
      → (env : Env) (iface : Text) (f : FireAndForget) → Meanwhile c w (sent env iface f v)
  notes :
      {v : Web}
      → Meanwhile c w v
      → (env : Env) (iface : Text) (f : FireAndForget) (res : Response) → IsElsewhere c f res
      → Meanwhile c w (noted env iface f res v)
  sleeps : {v : Web} → Meanwhile c w v → (res : Response) → Meanwhile c w (wait_out res v)
  counts : {v : Web} → Meanwhile c w v → (g : Stats → Stats) → Meanwhile c w (counted g v)
