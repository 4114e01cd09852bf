-- ===== src/Module/Stop.antt =====
-- What the stop command does to the game of a channel.
use triviabot.Common.{
  ℕ, ◌≡◌, ◌≢◌, refl, ap, ◌∙◌, Bool, true, false, not, ◌&&◌, List, some, ◌==◌, ==_refl,
  if◌then◌else◌, lookup, lookup-insert, arith,
}
use triviabot.Host.{Host}
use triviabot.Settings.{GuildSettings}
use triviabot.Game.State.{State, Effect, Run, Moment, returned}
use triviabot.Game.Answers.{InMsg, queue_message}
use triviabot.Module.{Shared, run_of, get_state, stop_call, heard, command_of, real_on_message}

abbrev pub stopped : ℕ → State → State
stopped now g = record g { terminating = true; next_tick = now }

stop_call-lookup :
    (s : GuildSettings) (is_moderator : Bool) (now guild channel j : ℕ) (games : List (ℕ × State))
    (out : List Effect) (g : State)
    → lookup channel games ≡ some g
    → (s.only_mods_stop && not is_moderator) ≡ false
    → lookup j (stop_call s is_moderator now guild channel games out).1
      ≡ (if channel == j then some (stopped now g) else lookup j games)
unfolding stop_call
stop_call-lookup s is_moderator now guild channel j games out g e may =
    rw (e, stop_call, may) (lookup-insert channel j (stopped now g) games)

deaf :
    (host : Host) (m : Moment) (s : GuildSettings) (msg : InMsg) (r : Run)
    → r.game.terminating ≡ true
    → queue_message host m s msg r ≡ returned r
unfolding queue_message
deaf host m s msg r t = rw (t, queue_message) refl

real_on_message-game :
    (host : Host) (m : Moment) (s : GuildSettings) (channel : ℕ) (msg : InMsg)
    (games : List (ℕ × State)) (sh : Shared) (g : State)
    → (channel == 0) ≡ false
    → lookup channel games ≡ some g
    → g.terminating ≡ true
    → real_on_message host m s false false channel msg games sh
      ≡ heard (command_of s msg.msg) (some (channel, returned (run_of g sh)))
unfolding real_on_message get_state
real_on_message-game host m s channel msg games sh g nonzero e t =
    rw (nonzero, e, real_on_message)
      (ap (λ o. heard (command_of s msg.msg) (some (channel, o)))
        (deaf host m s msg (run_of g sh) t))

-- A stop by somebody who may stop the game leaves every other channel its game. The game of the
-- channel hears no message any more, whoever sends it: a command in it is taken, but its answers
-- change nothing.
pub stop_call_lem :
    (host : Host) (m : Moment) (s later : GuildSettings) (is_moderator : Bool)
    (now guild channel : ℕ) (msg : InMsg) (games : List (ℕ × State)) (out : List Effect) (g : State)
    (sh : Shared)
    → lookup channel games ≡ some g
    → (s.only_mods_stop && not is_moderator) ≡ false
    → channel ≢ 0
    → ((j : ℕ)
        → channel ≢ j
        → lookup j (stop_call s is_moderator now guild channel games out).1 ≡ lookup j games)
      × (real_on_message host m later false false channel msg
            (stop_call s is_moderator now guild channel games out).1
            sh
          ≡ heard (command_of later msg.msg) (some (channel, returned (run_of (stopped now g) sh))))
stop_call_lem host m s later is_moderator now guild channel msg games out g sh e may ne = (
  (λ j other. stop_call-lookup s is_moderator now guild channel j games out g e may ∙ ground arith),
  (let there = stop_call-lookup s is_moderator now guild channel channel games out g e may in
      let nonzero : (channel == 0) ≡ false = ground arith in
      real_on_message-game host m later channel msg
        (stop_call s is_moderator now guild channel games out).1 sh (stopped now g) nonzero
        (there ∙ rw (==_refl channel) refl) refl),
)
