-- ===== src/Commands/Passing.antt =====
-- A command goes through the gate of its channel, or does not run.
use triviabot.Common.{
  ℕ, ◌≡◌, ◌⊎◌, inl, inr, refl, ap, ◌∙◌, sym, Bool, true, false, not, ◌||◌, none, some, ◌==◌,
  Bool-cases, Option-cases, arith,
}
use triviabot.Text.{Text, lowercase, trim, getline}
use triviabot.Commands.{Limits, Gate, runs, warned, quiet, gate}
use triviabot.Commands.Handle.{
  Command, Context, Route, dropped, unknown, handler, api, limited, let_through, route_command,
  handle_command, which_command, base_command, is_listed, is_moderator,
}

-- Whether a command runs, and whether the rate limit leaves it out: it is ephemeral, or comes from the
-- dashboard.
abbrev pub is_run : Route → Bool
is_run dropped = false
is_run unknown = false
is_run (handler name tokens moderator) = true
is_run (api name parameters) = true
is_run (limited told) = false

abbrev pub is_exempt : Context → Command → Bool
is_exempt ctx cmd =
    cmd.from_dashboard
    || elim (which_command ctx cmd) [ none ↦ false | some (key, ephemeral) ↦ ephemeral ]

exempt_found :
    (ctx : Context) (cmd : Command) (key : Text) (ephemeral : Bool)
    → which_command ctx cmd ≡ some (key, ephemeral)
    → is_exempt ctx cmd ≡ false
    → (ephemeral ≡ false) × (cmd.from_dashboard ≡ false)
exempt_found ctx cmd key ephemeral e normal = ground arith

-- A command leaves the limits alone and does not run, or it goes through the gate of its channel.
abbrev pub Through : Context → (now : ℕ) → Command → Limits → Route × Limits → Type 0
Through ctx now cmd l r =
    ((r.1 ≡ l) × (is_run r.0 ≡ false))
    ⊎ ((e : Bool) × (d : Bool) × (route : Route) × (r
          ≡ let_through route (gate e d now cmd.channel_id l))
        × (is_exempt ctx cmd ≡ false → (e ≡ false) × (d ≡ false)))

route_command-Through :
    (ctx : Context) (now : ℕ) (cmd : Command) (l : Limits)
    → Through ctx now cmd l (route_command ctx now cmd l)
unfolding route_command
route_command-Through ctx now cmd l = elim (Option-cases (which_command ctx cmd)) [
  | inr (found, e) ↦
      let tokens = (base_command cmd.msg).1 in
      inr (
        found.1,
        cmd.from_dashboard,
        handler found.0 tokens (is_moderator ctx cmd),
        rw (e, route_command) refl,
        λ normal. exempt_found ctx cmd found.0 found.1 e normal,
      )
  | inl e ↦
      let name = (base_command cmd.msg).0 in
      elim (Bool-cases (is_listed (trim (lowercase name)) ctx.api_commands)) [
        | inl listed ↦ inr (
          false,
          false,
          api name (trim (trim (getline (base_command cmd.msg).1))),
          rw (e, listed, route_command) refl,
          λ normal. (refl, refl),
        )
        | inr other ↦ inl (rw (e, other, route_command) refl, rw (e, other, route_command) refl)
      ]
]

pub through :
    (ctx : Context) (now : ℕ) (cmd : Command) (l : Limits)
    → Through ctx now cmd l (handle_command ctx now cmd l)
unfolding handle_command
through ctx now cmd l = elim (Bool-cases (not ctx.test_mode || ctx.test_server == cmd.guild_id)) [
  | inl e ↦ rw (e, handle_command) (route_command-Through ctx now cmd l)
  | inr e ↦ inl (rw (e, handle_command) refl, rw (e, handle_command) refl)
]

pub let_through-limits : (r : Route) (g : Gate × Limits) → (let_through r g).1 ≡ g.1
unfolding let_through
let_through-limits r (runs, l) = refl
let_through-limits r (warned, l) = refl
let_through-limits r (quiet, l) = refl

let_through-runs : (r : Route) (g : Gate × Limits) → is_run (let_through r g).0 ≡ true → g.0 ≡ runs
unfolding let_through
let_through-runs r (runs, l) h = refl
let_through-runs r (warned, l) h = absurd (cc)
let_through-runs r (quiet, l) h = absurd (cc)

-- A command that is not exempt, and runs, has found the gate of its channel open.
pub normal_run :
    (ctx : Context) (now : ℕ) (cmd : Command) (l : Limits)
    → is_exempt ctx cmd ≡ false
    → is_run (handle_command ctx now cmd l).0 ≡ true
    → ((gate false false now cmd.channel_id l).0 ≡ runs)
      × ((handle_command ctx now cmd l).1 ≡ (gate false false now cmd.channel_id l).1)
normal_run ctx now cmd l normal ran = elim (through ctx now cmd l) [
  | inl (same, stopped) ↦ absurd (ground arith)
  | inr (e, d, route, went, plain) ↦
      let flags = plain normal in
      let g = gate false false now cmd.channel_id l in
      let went' : handle_command ctx now cmd l ≡ let_through route g =
        went
        ∙ ap (λ x. let_through route (gate x d now cmd.channel_id l)) flags.0
        ∙ ap (λ x. let_through route (gate false x now cmd.channel_id l)) flags.1 in
      (
        let_through-runs route g (sym (ap (λ r. is_run r.0) went') ∙ ran),
        ap (λ r. r.1) went' ∙ let_through-limits route g,
      )
]
