-- ===== src/Web/Requests/Parts.antt =====
-- What the parts of a request leave of the rate limits of channels.
use triviabot.Common.{
  ℕ, ◌+◌, ◌<◌, ◌≡◌, ◌≢◌, ◌⊎◌, true, false, ◌∷◌, some, u64, lookup, lookup-insert, is_empty,
  get_elem?, inl, inr, Option-cases, ◌==◌, arith,
}
use triviabot.Text.{Text}
use triviabot.Web.Queues.{FireAndForget}
use triviabot.Web.Requests.{
  getinterface, Response, sleep, post, Web, Env, act, hold_back, forget_webhook, limit_seconds,
  is_limited, note_limit, heed_limit, wait_out, request_on, web_request,
}

-- The state in which a request by POST waits for its answer.
abbrev pub sent : Env → (iface : Text) → FireAndForget → Web → Web
sent env iface f w =
    act (post f.host f.path f.body iface (f.channel_id == 0)) (hold_back env.now f.channel_id w)

-- The state behind the answer, when its limit is noted and the thread has not slept yet.
abbrev pub noted : Env → (iface : Text) → FireAndForget → Response → Web → Web
noted env iface f res w = heed_limit env iface f res (forget_webhook env f res w)

pub hold_back-channellock : (now c : ℕ) (w : Web) → (hold_back now c w).channellock ≡ w.channellock
unfolding hold_back act
hold_back-channellock now c w = elim (Option-cases (lookup c w.channellock)) [
  | inl e ↦ ground arith
  | inr (l, e) ↦ ground arith
]

-- An answer that is no limit of the channel: it is about another one, or not a limit, or a limit of
-- the interface.
abbrev pub IsElsewhere : (c : ℕ) → FireAndForget → Response → Type 0
IsElsewhere c f res =
    (f.channel_id ≢ c) ⊎ ((is_limited res ≡ false) ⊎ (is_empty res.global ≡ false))

pub noted-others :
    (env : Env) (iface : Text) (f : FireAndForget) (res : Response) (w : Web) (c : ℕ)
    → IsElsewhere c f res
    → lookup c (noted env iface f res w).channellock ≡ lookup c w.channellock
unfolding heed_limit note_limit forget_webhook act
noted-others env iface f res w c (inl other) =
    let kept = lookup-insert f.channel_id c (limit_seconds res, env.answered_at) w.channellock in
    ground (arith, kept)
noted-others env iface f res w c (inr (inl no_limit)) = ground (arith, no_limit)
noted-others env iface f res w c (inr (inr global)) = ground (arith, global)

pub wait_out-channellock : (res : Response) (w : Web) → (wait_out res w).channellock ≡ w.channellock
unfolding wait_out act
wait_out-channellock res w = ground arith

-- A limit of the channel is noted.
pub limit_noted :
    (env : Env) (iface : Text) (f : FireAndForget) (res : Response) (w : Web)
    → is_limited res ≡ true
    → is_empty res.global ≡ true
    → lookup f.channel_id (noted env iface f res w).channellock
      ≡ some (limit_seconds res, env.answered_at)
unfolding heed_limit note_limit forget_webhook act
limit_noted env iface f res w limited channel =
    let limit : ℕ × ℕ = (limit_seconds res, env.answered_at) in
    ground (arith, lookup-insert f.channel_id f.channel_id limit w.channellock)

-- A request on a channel with a limit that has not run out sleeps before it is sent.
pub limit_held :
    (env : Env) (iface : Text) (f : FireAndForget) (w : Web) (seconds when_ : ℕ)
    → lookup f.channel_id w.channellock ≡ some (seconds, when_)
    → 0 < seconds
    → env.now < u64 (when_ + seconds)
    → (sent env iface f w).out
      ≡ post f.host f.path f.body iface (f.channel_id == 0) ∷ sleep seconds ∷ w.out
unfolding hold_back act
limit_held env iface f w seconds when_ e some_time early = ground arith

-- A request that does not read past the end of the interfaces goes over one of them.
pub web_request_ran :
    (env : Env) (f : FireAndForget) (w u : Web) (text : Text)
    → web_request env f w ≡ some (text, u)
    → (iface : Text) × (moved : ℕ) × (request_on env iface f (record w { interface_index = moved })
        ≡ (text, u))
      × (get_elem? env.interfaces w.interface_index ≡ some iface)
unfolding web_request getinterface
web_request_ran env f w u text e =
    elim (Option-cases (getinterface env.interfaces w.interface_index).0) [
      | inl past ↦ absurd (ground arith)
      | inr (iface, at_) ↦
          (iface, (getinterface env.interfaces w.interface_index).1, ground arith, ground arith)
    ]
