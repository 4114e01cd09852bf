-- ===== src/Start/Limits.antt =====
-- What a start of a game keeps to.
use triviabot.Common.{
  ℕ, ◌<◌, ◌≤◌, ◌≡◌, ◌⊎◌, refl, Bool, true, false, List, [], ◌∷◌, Option, none, some, ◌==◌,
  if◌then◌else◌, length, lookup, arith, ==_refl, Bool-cases, Option-cases, inl, inr,
}
use triviabot.Text.{Text}
use triviabot.Settings.{GuildSettings}
use triviabot.Game.State.{no_question, State, game_end}
use triviabot.Game.Progress.{Placed}
use triviabot.Start.{
  StartCmd, Trivia, Lookups, Answer, refused, silent, failed, started, parse_request, put,
  make_room, wrong_number, limited, wrong_list, reply, cooling, new_game, start_game, start_fresh,
  start_place, call,
}

lookup-put :
    (k j : ℕ) (g : State) (m : List (ℕ × State))
    → lookup j (put k g m) ≡ (if k == j then some g else lookup j m)
unfolding lookup put
lookup-put k j g [] = refl
lookup-put k j g ((i, h) ∷ m) = ground (arith, lookup-put k j g m)

-- A game that has just begun, of 5 to 200 questions unless the guild has set a lower limit, with a
-- list of at least 50.
abbrev pub Fresh : GuildSettings → StartCmd → Option State → Type 0
Fresh s cmd none = ⊥
Fresh s cmd (some g) =
    Placed g
    × (g.terminating ≡ false)
    × (g.round ≡ 1)
    × (g.numquestions ≤ 201)
    × ((5 < g.numquestions) ⊎ (limited s cmd 200 < 5))
    × (50 ≤ length g.shuffle_list)

-- The answer says that a game has started, and there is one.
FreshAnswer : GuildSettings → StartCmd → Answer × Trivia → Type 0
FreshAnswer s cmd (started, t) = Fresh s cmd (lookup cmd.channel_id t.games)
FreshAnswer s cmd (_, t) = Unit {0}

asked-bounds :
    (s : GuildSettings) (cmd : StartCmd) (n : ℕ)
    → wrong_number s cmd (some n) ≡ none
    → (5 ≤ n) × (n ≤ 200)
unfolding wrong_number
asked-bounds s cmd n h = ground arith

list-bounds : (s : GuildSettings) (sl : List Text) → wrong_list s sl ≡ none → 50 ≤ length sl
unfolding wrong_list
list-bounds s [] h = ground arith
list-bounds s (e ∷ []) h = ground arith
list-bounds s (e ∷ f ∷ sl) h = ground arith

start_game-Fresh :
    (s : GuildSettings) (w : Lookups) (cmd : StartCmd) (n : ℕ) (sl : List Text) (t : Trivia)
    → 5 ≤ n
    → n ≤ 200
    → 50 ≤ length sl
    → Fresh s cmd (lookup cmd.channel_id (start_game s w cmd (limited s cmd n) sl t).games)
unfolding start_game new_game limited no_question
start_game-Fresh s w cmd n sl t low high long =
    rw (lookup-put cmd.channel_id cmd.channel_id _ t.games, ==_refl cmd.channel_id) (ground arith)

start_fresh-Fresh :
    (s : GuildSettings) (w : Lookups) (cmd : StartCmd) (asked : Option ℕ) (category : Text)
    (t : Trivia)
    → FreshAnswer s cmd (start_fresh s w cmd asked category t)
unfolding start_fresh reply FreshAnswer
start_fresh-Fresh s w cmd none category t = elim (Option-cases (wrong_number s cmd none)) [
  | inl e ↦ rw (e, start_fresh) tt
  | inr (k, e) ↦ rw (e, start_fresh) tt
]
start_fresh-Fresh s w cmd (some n) category t = elim (Option-cases (wrong_number s cmd (some n))) [
  | inr (k, e) ↦ rw (e, start_fresh) tt
  | inl e ↦
      rw (e, start_fresh)
        (let sl = w.fetch_shuffle_list category in
          let (low, high) = asked-bounds s cmd n e in
          elim (Option-cases (wrong_list s sl)) [
            | inr (none, l) ↦ rw (l, start_fresh) tt
            | inr (some k, l) ↦ rw (l, start_fresh) tt
            | inl l ↦
                rw (l, start_fresh)
                  (elim (Bool-cases (cooling s cmd w.now t)) [
                    | inl c ↦ rw (c, start_fresh) tt
                    | inr c ↦
                        rw (c, start_fresh)
                          (start_game-Fresh s w cmd n sl t low high (list-bounds s sl l))
                  ])
          ])
]

FreshAnswer-if :
    (s : GuildSettings) (cmd : StartCmd) (b : Bool) (x y : Answer × Trivia)
    → FreshAnswer s cmd x
    → FreshAnswer s cmd y
    → FreshAnswer s cmd (if b then x else y)
FreshAnswer-if s cmd true x y p q = p
FreshAnswer-if s cmd false x y p q = q

start_place-Fresh :
    (s : GuildSettings) (w : Lookups) (cmd : StartCmd) (asked : Option ℕ) (category : Text)
    (t : Trivia)
    → FreshAnswer s cmd (start_place s w cmd asked category t)
unfolding start_place FreshAnswer
start_place-Fresh s w cmd asked category t =
    let t1 = (make_room s cmd t).0 in
    elim (Option-cases (make_room s cmd t).1) [
      | inr (k, e) ↦ rw (e, start_place) tt
      | inl e ↦
          rw (e, start_place)
            (elim (Option-cases (lookup cmd.channel_id t1.games)) [
              | inl f ↦ rw (f, start_place) (start_fresh-Fresh s w cmd asked category t1)
              | inr (g, f) ↦
                  rw (f, start_place)
                    (FreshAnswer-if s cmd cmd.from_dashboard _ _
                      (start_fresh-Fresh s w cmd asked category
                        (record t1 { out = game_end cmd.guild_id cmd.channel_id ∷ t1.out }))
                      tt)
            ])
    ]

call-FreshAnswer :
    (s : GuildSettings) (w : Lookups) (is_moderator : Bool) (cmd : StartCmd) (t : Trivia)
    → FreshAnswer s cmd (call s w is_moderator cmd t)
unfolding call
call-FreshAnswer s w is_moderator cmd t =
    FreshAnswer-if s cmd (w.banned cmd.author_id) (silent, t) _ (unfold FreshAnswer in tt)
      (elim (Option-cases (parse_request cmd)) [
        | inl e ↦ rw (e, call) (unfold FreshAnswer in tt)
        | inr ((asked, category), e) ↦
            rw (e, call)
              (FreshAnswer-if s cmd _ (refused "AREYOUSTARTINGSOMETHING", t) _
                (unfold FreshAnswer in tt)
                (FreshAnswer-if s cmd _ (refused "NOTINWHITELIST", t) _ (unfold FreshAnswer in tt)
                  (start_place-Fresh s w cmd asked category t)))
      ])

FreshAnswer-started :
    (s : GuildSettings) (cmd : StartCmd) (x : Answer × Trivia)
    → x.0 ≡ started
    → FreshAnswer s cmd x
    → Fresh s cmd (lookup cmd.channel_id x.1.games)
unfolding FreshAnswer
FreshAnswer-started s cmd (started, t) h f = f
FreshAnswer-started s cmd (refused k, t) h f = cc
FreshAnswer-started s cmd (silent, t) h f = cc
FreshAnswer-started s cmd (failed, t) h f = cc

-- If the call says that a game has started, then there is one in the channel. It is at its first
-- round, within its range, has at most 200 questions, and at least 5 unless the guild has set a
-- lower limit, and its list has at least 50.
pub call-Fresh :
    (s : GuildSettings) (w : Lookups) (is_moderator : Bool) (cmd : StartCmd) (t : Trivia)
    → (call s w is_moderator cmd t).0 ≡ started
    → Fresh s cmd (lookup cmd.channel_id (call s w is_moderator cmd t).1.games)
call-Fresh s w is_moderator cmd t h =
    FreshAnswer-started s cmd (call s w is_moderator cmd t) h
      (call-FreshAnswer s w is_moderator cmd t)
