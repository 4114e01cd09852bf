-- ===== src/Commands/Spacing.antt =====
-- The commands that run in a channel are four seconds apart.
use triviabot.Common.{
  ℕ, ◌+◌, ◌<◌, ◌≤◌, ◌≡◌, ◌≢◌, ◌⊎◌, inl, inr, ap, ◌∙◌, Bool, true, false, some, ltb, lookup, erase,
  lookup-insert, lookup-erase, Bool-cases, arith,
}
use triviabot.Commands.{
  Limits, runs, check_time, has_limit, has_rl_warn, set_limit, set_rl_warn, gate,
}
use triviabot.Commands.Passing.{is_run, is_exempt, through, let_through-limits, normal_run}
use triviabot.Commands.Handle.{Command, Context, handle_command}

-- A limit of the channel up to `end` is on, or over.
Held : (c end now : ℕ) → Limits → Type 0
Held c end now l = (end ≤ now) ⊎ (lookup c l.limits ≡ some end)

gate-limit :
    (ephemeral from_dashboard : Bool) (now channel c end : ℕ) (l : Limits)
    → lookup c l.limits ≡ some end
    → now < end
    → lookup c (gate ephemeral from_dashboard now channel l).1.limits ≡ some end
unfolding gate has_limit has_rl_warn set_limit set_rl_warn check_time
gate-limit ephemeral from_dashboard now channel c end l e on = ground (
  arith,
  lookup-insert channel c (now + 4) l.limits,
  lookup-insert channel c (now + 4) (erase channel l.limits),
  lookup-erase channel c l.limits,
)

gate_held :
    (now c end : ℕ) (l : Limits)
    → lookup c l.limits ≡ some end
    → now < end
    → (gate false false now c l).0 ≢ runs
unfolding gate has_limit has_rl_warn set_limit set_rl_warn check_time
gate_held now c end l e on = ground arith

gate_sets :
    (now c : ℕ) (l : Limits)
    → (gate false false now c l).0 ≡ runs
    → lookup c (gate false false now c l).1.limits ≡ some (now + 4)
unfolding gate has_limit has_rl_warn set_limit set_rl_warn check_time
gate_sets now c l ran =
    ground
      (arith, lookup-insert c c (now + 4) l.limits, lookup-insert c c (now + 4) (erase c l.limits))

handle_command-Held :
    (c end at now : ℕ) (ctx : Context) (cmd : Command) (l : Limits)
    → at ≤ now
    → Held c end at l
    → Held c end now (handle_command ctx now cmd l).1
unfolding Held
handle_command-Held c end at now ctx cmd l later (inl over) = inl (omega arith)
handle_command-Held c end at now ctx cmd l later (inr on) = elim (Bool-cases (ltb now end)) [
  | inr over ↦ inl (ground arith)
  | inl still ↦ elim (through ctx now cmd l) [
    | inl (same, stopped) ↦ inr (rw same on)
    | inr (e, d, route, went, normal) ↦
        let kept = gate-limit e d now cmd.channel_id c end l on (ground arith) in
        inr (
          ap (λ r. lookup c r.1.limits) went
          ∙ ap (λ m. lookup c m.limits) (let_through-limits route (gate e d now cmd.channel_id l))
          ∙ kept)
  ]
]

handle_command_sets :
    (ctx : Context) (now : ℕ) (cmd : Command) (l : Limits)
    → is_exempt ctx cmd ≡ false
    → is_run (handle_command ctx now cmd l).0 ≡ true
    → Held cmd.channel_id (now + 4) now (handle_command ctx now cmd l).1
unfolding Held
handle_command_sets ctx now cmd l normal ran =
    let (free, same) = normal_run ctx now cmd l normal ran in
    inr (
      ap (λ (m : Limits). lookup cmd.channel_id m.limits) same
      ∙ gate_sets now cmd.channel_id l free)

handle_command_waits :
    (ctx : Context) (now end : ℕ) (cmd : Command) (l : Limits)
    → is_exempt ctx cmd ≡ false
    → is_run (handle_command ctx now cmd l).0 ≡ true
    → Held cmd.channel_id end now l
    → end ≤ now
unfolding Held
handle_command_waits ctx now end cmd l normal ran (inl over) = over
handle_command_waits ctx now end cmd l normal ran (inr on) = elim (Bool-cases (ltb now end)) [
  | inr over ↦ ground arith
  | inl still ↦
      let free = (normal_run ctx now cmd l normal ran).0 in
      absurd (gate_held now cmd.channel_id end l on (ground arith) free)
]

Held-later : (c end at then_ : ℕ) (l : Limits) → at ≤ then_ → Held c end at l → Held c end then_ l
unfolding Held
Held-later c end at then_ l le (inl over) = inl (omega arith)
Held-later c end at then_ l le (inr on) = inr on

-- Commands that are handled one after another, while the clock does not go back.
pub data Later (now : ℕ) (l : Limits) : ℕ → Limits → Type 0 where
  here : Later now l now l
  next :
      {at : ℕ} {k : Limits}
      → Later now l at k
      → (ctx : Context) (cmd : Command) (at' : ℕ) → at ≤ at'
      → Later now l at' (handle_command ctx at' cmd k).1

Later-Held :
    {now : ℕ} {l : Limits} {at : ℕ} {k : Limits} (c end : ℕ)
    → Held c end now l
    → Later now l at k
    → Held c end at k
Later-Held c end h here = h
Later-Held c end h (next {at} {k} r ctx cmd at' le) =
    handle_command-Held c end at at' ctx cmd k le (Later-Held c end h r)

-- Of the commands that are handled one after another, whatever they are and wherever they come from:
-- two that run in the same channel, and of which neither is ephemeral or from the dashboard, are at
-- least four seconds apart.
pub commands_spaced :
    (ctx ctx' : Context) (now at then_ : ℕ) (cmd cmd' : Command) (l k : Limits)
    → is_exempt ctx cmd ≡ false
    → is_run (handle_command ctx now cmd l).0 ≡ true
    → Later now (handle_command ctx now cmd l).1 at k
    → at ≤ then_
    → cmd'.channel_id ≡ cmd.channel_id
    → is_exempt ctx' cmd' ≡ false
    → is_run (handle_command ctx' then_ cmd' k).0 ≡ true
    → now + 4 ≤ then_
commands_spaced ctx ctx' now at then_ cmd cmd' l k normal ran between le same normal' ran' =
    let c = cmd.channel_id in
    let held = Later-Held c (now + 4) (handle_command_sets ctx now cmd l normal ran) between in
    handle_command_waits ctx' then_ (now + 4) cmd' k normal' ran'
      (rw same (Held-later c (now + 4) at then_ k le held))
