-- ===== src/Commands/Rate.antt =====
-- One command in four seconds.
use triviabot.Common.{
  ℕ, ◌+◌, ◌<◌, ◌≡◌, ◌≢◌, Bool, false, none, some, ltb, lookup, erase, lookup-insert, lookup-erase,
  arith,
}
use triviabot.Commands.{
  Limits, runs, check_time, has_limit, has_rl_warn, set_limit, set_rl_warn, gate, Times,
}

limited_until : ℕ → ℕ → Times → Bool
limited_until now channel t = elim (lookup channel t) [ none ↦ false | some end ↦ ltb now end ]

-- A command in a channel without a limit runs, wherever it comes from. From then on, and for four
-- seconds, a command in that channel that is neither ephemeral nor from the dashboard does not run.
gate_limits :
    (ephemeral from_dashboard : Bool) (now later channel : ℕ) (l : Limits)
    → (has_limit now channel l).0 ≡ false
    → later < now + 4
    → ((gate ephemeral from_dashboard now channel l).0 ≡ runs)
      × ((gate false false later channel (gate ephemeral from_dashboard now channel l).1).0 ≢ runs)
unfolding gate has_limit has_rl_warn set_limit set_rl_warn check_time
gate_limits ephemeral from_dashboard now later channel l free soon = ground (
  arith,
  lookup-insert channel channel (now + 4) l.limits,
  lookup-insert channel channel (now + 4) (erase channel l.limits),
)

-- A command changes no other channel's limit or warning.
gate-others :
    (ephemeral from_dashboard : Bool) (now channel other : ℕ) (l : Limits)
    → channel ≢ other
    → (lookup other (gate ephemeral from_dashboard now channel l).1.limits ≡ lookup other l.limits)
      × (lookup other (gate ephemeral from_dashboard now channel l).1.last_rl_warning
          ≡ lookup other l.last_rl_warning)
unfolding gate has_limit has_rl_warn set_limit set_rl_warn check_time
gate-others ephemeral from_dashboard now channel other l ne = ground (
  arith,
  lookup-insert channel other (now + 4) l.limits,
  lookup-insert channel other (now + 4) (erase channel l.limits),
  lookup-erase channel other l.limits,
  lookup-insert channel other (now + 4) l.last_rl_warning,
  lookup-insert channel other (now + 4) (erase channel l.last_rl_warning),
  lookup-erase channel other l.last_rl_warning,
)
