-- ===== src/Start/Alone.antt =====
-- What a start by a user, who is not the dashboard, does to the other games of the guild.
use triviabot.Common.{
  ℕ, ◌≡◌, ◌≢◌, refl, sym, Bool, true, false, List, [], ◌∷◌, Option, none, some, if◌then◌else◌,
  lookup, arith, Bool-cases, Option-cases, inl, inr, String,
}
use mathlib.Core.Path.{subst}
use triviabot.Text.{Text}
use triviabot.Settings.{GuildSettings}
use triviabot.Game.State.{State}
use triviabot.Start.{
  StartCmd, Trivia, Lookups, Answer, refused, silent, failed, started, parse_request, put, is_other,
  other_game, premium_games, make_room, wrong_number, limited, wrong_list, reply, cooling, new_game,
  start_game, start_fresh, start_place, call,
}

other_game-put :
    (cmd : StartCmd) (k : ℕ) (g : State) (m : List (ℕ × State))
    → is_other cmd g ≡ false
    → other_game cmd m ≡ none
    → other_game cmd (put k g m) ≡ none
unfolding other_game put
other_game-put cmd k g [] e h = ground arith
other_game-put cmd k g ((i, f) ∷ m) e h = ground (arith, other_game-put cmd k g m e)

premium_games-found :
    (cmd : StartCmd) (m : List (ℕ × State))
    → cmd.from_dashboard ≡ false
    → (premium_games cmd m).1 ≡ none
unfolding premium_games
premium_games-found cmd [] h = refl
premium_games-found cmd ((i, f) ∷ m) h = ground (arith, premium_games-found cmd m h)

make_room-user :
    (s : GuildSettings) (cmd : StartCmd) (t : Trivia)
    → cmd.from_dashboard ≡ false
    → (make_room s cmd t).0 ≡ t
unfolding make_room
make_room-user s cmd t h = ground (arith, premium_games-found cmd t.games h)

make_room-alone :
    (s : GuildSettings) (cmd : StartCmd) (t : Trivia)
    → cmd.from_dashboard ≡ false
    → s.premium ≡ false
    → (make_room s cmd t).1 ≡ none
    → other_game cmd t.games ≡ none
unfolding make_room
make_room-alone s cmd t h p e = ground arith

-- A start by a user without premium leaves the guild with one game; a start that fails leaves all.
UserAnswer : GuildSettings → StartCmd → Trivia → Answer × Trivia → Type 0
UserAnswer s cmd t (started, t') = s.premium ≡ false → other_game cmd t'.games ≡ none
UserAnswer s cmd t (refused k, t') = t' ≡ t
UserAnswer s cmd t (silent, t') = t' ≡ t
UserAnswer s cmd t (failed, t') = t' ≡ t

start_game-alone :
    (s : GuildSettings) (w : Lookups) (cmd : StartCmd) (n : ℕ) (sl : List Text) (t : Trivia)
    → other_game cmd t.games ≡ none
    → other_game cmd (start_game s w cmd n sl t).games ≡ none
unfolding start_game
start_game-alone s w cmd n sl t alone =
    other_game-put cmd cmd.channel_id _ t.games (unfold is_other new_game in ground arith) alone

start_fresh-user :
    (s : GuildSettings) (w : Lookups) (cmd : StartCmd) (asked : Option ℕ) (category : Text)
    (t : Trivia)
    → (s.premium ≡ false → other_game cmd t.games ≡ none)
    → UserAnswer s cmd t (start_fresh s w cmd asked category t)
unfolding start_fresh reply UserAnswer
start_fresh-user s w cmd none category t alone = elim (Option-cases (wrong_number s cmd none)) [
  | inl e ↦ rw (e, start_fresh) refl
  | inr (k, e) ↦ rw (e, start_fresh) refl
]
start_fresh-user s w cmd (some n) category t alone =
    elim (Option-cases (wrong_number s cmd (some n))) [
      | inr (k, e) ↦ rw (e, start_fresh) refl
      | inl e ↦
          rw (e, start_fresh)
            (let sl = w.fetch_shuffle_list category in
              elim (Option-cases (wrong_list s sl)) [
                | inr (none, l) ↦ rw (l, start_fresh) refl
                | inr (some k, l) ↦ rw (l, start_fresh) refl
                | inl l ↦
                    rw (l, start_fresh)
                      (elim (Bool-cases (cooling s cmd w.now t)) [
                        | inl c ↦ rw (c, start_fresh) refl
                        | inr c ↦
                            rw (c, start_fresh)
                              λ p. start_game-alone s w cmd (limited s cmd n) sl t (alone p)
                      ])
              ])
    ]

UserAnswer-if :
    (s : GuildSettings) (cmd : StartCmd) (t : Trivia) (b : Bool) (x y : Answer × Trivia)
    → UserAnswer s cmd t x
    → UserAnswer s cmd t y
    → UserAnswer s cmd t (if b then x else y)
UserAnswer-if s cmd t true x y p q = p
UserAnswer-if s cmd t false x y p q = q

UserAnswer-else :
    (s : GuildSettings) (cmd : StartCmd) (t : Trivia) (b : Bool) (x y : Answer × Trivia)
    → b ≡ false
    → UserAnswer s cmd t y
    → UserAnswer s cmd t (if b then x else y)
UserAnswer-else s cmd t true x y e q = cc
UserAnswer-else s cmd t false x y e q = q

refused-user :
    (s : GuildSettings) (cmd : StartCmd) (k : String) (t t' : Trivia)
    → t' ≡ t
    → UserAnswer s cmd t (refused k, t')
unfolding UserAnswer
refused-user s cmd k t t' h = h

start_fresh-after :
    (s : GuildSettings) (w : Lookups) (cmd : StartCmd) (asked : Option ℕ) (category : Text)
    (t t1 : Trivia)
    → t1 ≡ t
    → (s.premium ≡ false → other_game cmd t.games ≡ none)
    → UserAnswer s cmd t (start_fresh s w cmd asked category t1)
start_fresh-after s w cmd asked category t t1 same alone =
    subst (λ t2. UserAnswer s cmd t (start_fresh s w cmd asked category t2)) (sym same)
      (start_fresh-user s w cmd asked category t alone)

start_place-user :
    (s : GuildSettings) (w : Lookups) (cmd : StartCmd) (asked : Option ℕ) (category : Text)
    (t : Trivia)
    → cmd.from_dashboard ≡ false
    → UserAnswer s cmd t (start_place s w cmd asked category t)
unfolding start_place
start_place-user s w cmd asked category t user =
    let same = make_room-user s cmd t user in
    elim (Option-cases (make_room s cmd t).1) [
      | inr (k, e) ↦ rw (e, start_place) (refused-user s cmd k t _ same)
      | inl e ↦
          rw (e, start_place)
            (elim (Option-cases (lookup cmd.channel_id (make_room s cmd t).0.games)) [
              | inl f ↦
                  rw (f, start_place)
                    (start_fresh-after s w cmd asked category t _ same
                      (λ p. make_room-alone s cmd t user p e))
              | inr (g, f) ↦
                  rw (f, start_place)
                    (UserAnswer-else s cmd t cmd.from_dashboard _ (refused "ALREADYRUN", _) user
                      (refused-user s cmd "ALREADYRUN" t _ same))
            ])
    ]

call-UserAnswer :
    (s : GuildSettings) (w : Lookups) (is_moderator : Bool) (cmd : StartCmd) (t : Trivia)
    → cmd.from_dashboard ≡ false
    → UserAnswer s cmd t (call s w is_moderator cmd t)
unfolding call
call-UserAnswer s w is_moderator cmd t user =
    UserAnswer-if s cmd t (w.banned cmd.author_id) (silent, t) _ (unfold UserAnswer in refl)
      (elim (Option-cases (parse_request cmd)) [
        | inl e ↦ rw (e, call) (unfold UserAnswer in refl)
        | inr ((asked, category), e) ↦
            rw (e, call)
              (UserAnswer-if s cmd t _ (refused "AREYOUSTARTINGSOMETHING", t) _
                (refused-user s cmd _ t t refl)
                (UserAnswer-if s cmd t _ (refused "NOTINWHITELIST", t) _
                  (refused-user s cmd _ t t refl) (start_place-user s w cmd asked category t user)))
      ])

alone_of :
    (s : GuildSettings) (cmd : StartCmd) (t : Trivia) (x : Answer × Trivia)
    → x.0 ≡ started
    → s.premium ≡ false
    → UserAnswer s cmd t x
    → other_game cmd x.1.games ≡ none
unfolding UserAnswer
alone_of s cmd t (started, t') h p u = u p
alone_of s cmd t (refused k, t') h p u = cc
alone_of s cmd t (silent, t') h p u = cc
alone_of s cmd t (failed, t') h p u = cc

same_of :
    (s : GuildSettings) (cmd : StartCmd) (t : Trivia) (x : Answer × Trivia)
    → x.0 ≢ started
    → UserAnswer s cmd t x
    → x.1 ≡ t
unfolding UserAnswer
same_of s cmd t (started, t') h u = absurd (h refl)
same_of s cmd t (refused k, t') h u = u
same_of s cmd t (silent, t') h u = u
same_of s cmd t (failed, t') h u = u

-- After a user has started a game in a guild without premium, no other channel of the guild has a
-- game that goes on.
pub call-alone :
    (s : GuildSettings) (w : Lookups) (is_moderator : Bool) (cmd : StartCmd) (t : Trivia)
    → cmd.from_dashboard ≡ false
    → s.premium ≡ false
    → (call s w is_moderator cmd t).0 ≡ started
    → other_game cmd (call s w is_moderator cmd t).1.games ≡ none
call-alone s w is_moderator cmd t user p h =
    alone_of s cmd t (call s w is_moderator cmd t) h p (call-UserAnswer s w is_moderator cmd t user)

-- A start by a user that does not start a game changes nothing: no game, no streak, no cooldown.
call_in_vain :
    (s : GuildSettings) (w : Lookups) (is_moderator : Bool) (cmd : StartCmd) (t : Trivia)
    → cmd.from_dashboard ≡ false
    → (call s w is_moderator cmd t).0 ≢ started
    → (call s w is_moderator cmd t).1 ≡ t
call_in_vain s w is_moderator cmd t user h =
    same_of s cmd t (call s w is_moderator cmd t) h (call-UserAnswer s w is_moderator cmd t user)
