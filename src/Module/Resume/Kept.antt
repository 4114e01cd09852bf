-- ===== src/Module/Resume/Kept.antt =====
-- What a restart keeps of a game.
use triviabot.Common.{
  ℕ, ◌≡◌, refl, Bool, true, false, List, [], ◌∷◌, none, some, lookup, insert, lookup-insert, inl,
  inr, Option-cases, arith,
}
use triviabot.Host.{Host}
use triviabot.Numbers.{NumStrs}
use triviabot.Game.State.{State, Run, Outcome, returned, threw, fault}
use triviabot.Module.{Shared, shared_of}
use triviabot.Module.Resume.{
  ActiveGame, guild_of, channel_of_row, shuffle_list_of, resume_round, Resumed, finished, thrown,
  past_end, World, resume_games, on_all_shards_ready,
}

-- What holds of the games that there are in the end, if there is an end.
abbrev pub Ends : (List (ℕ × State) → Type 0) → Resumed → Type 0
Ends P (finished games sh) = P games
Ends P (thrown games sh) = P games
Ends P past_end = Unit {0}

module _ (host : Host) (numstrs : NumStrs) (world : World) (c : ℕ) (g : State) where
  round_kept :
      (o : Outcome) (rows : List ActiveGame) (games : List (ℕ × State)) (at : ℕ)
      → ((r : Run)
          → Ends
              (λ games'. lookup c games' ≡ some g)
              (resume_games host numstrs world rows (insert at r.game games) (shared_of r)))
      → ((r : Run) → lookup c (insert at r.game games) ≡ some g)
      → Ends
          (λ games'. lookup c games' ≡ some g)
          (elim o [
            | returned r ↦
                resume_games host numstrs world rows (insert at r.game games) (shared_of r)
            | threw r ↦ thrown (insert at r.game games) (shared_of r)
            | fault r ↦ past_end
          ])
  round_kept (returned r) rows games at later now = later r
  round_kept (threw r) rows games at later now = now r
  round_kept (fault r) rows games at later now = tt

  inserted :
      (at : ℕ) (h : State) (games : List (ℕ × State))
      → lookup c games ≡ some g
      → lookup at games ≡ none
      → lookup c (insert at h games) ≡ some g
  inserted at h games e free = ground (arith, lookup-insert at c h games)

  resume_games-kept :
      (rows : List ActiveGame) (games : List (ℕ × State)) (sh : Shared)
      → lookup c games ≡ some g
      → Ends (λ games'. lookup c games' ≡ some g) (resume_games host numstrs world rows games sh)
  unfolding resume_games
  resume_games-kept [] games sh e = e
  resume_games-kept (row ∷ rows) games sh e =
      let at = channel_of_row row in
      let guild = guild_of row in
      let fetched = world.fetched guild in
      elim (Option-cases (lookup at games)) [
        | inr (old, there) ↦ rw (there, resume_games) (resume_games-kept rows games sh e)
        | inl free ↦ elim (Option-cases (shuffle_list_of world.parse fetched row)) [
          | inl bad ↦ rw (free, resume_games, bad) e
          | inr (questions, good) ↦
              let kept = λ (r : Run). inserted at r.game games e free in
              rw (free, resume_games, good)
                (round_kept
                  (resume_round host numstrs (world.moment at) (world.settings guild)
                    (world.lookups at) questions row sh)
                  rows games at
                  (λ r. resume_games-kept rows (insert at r.game games) (shared_of r) (kept r))
                  kept)
        ]
      ]

-- A game that is there already when the bot is ready, since somebody has started it in the meantime,
-- is never replaced by a game that is resumed in its channel, also when an exception ends the resuming;
-- and in test mode no game is resumed.
pub on_all_shards_ready-kept :
    (host : Host) (numstrs : NumStrs) (world : World) (test_mode : Bool) (active : List ActiveGame)
    → (games : List (ℕ × State)) (sh : Shared) (c : ℕ) (g : State) → lookup c games ≡ some g
    → Ends
        (λ games'. lookup c games' ≡ some g)
        (on_all_shards_ready host numstrs world test_mode active games sh)
      × (on_all_shards_ready host numstrs world true active games sh ≡ finished games sh)
unfolding on_all_shards_ready
on_all_shards_ready-kept host numstrs world true active games sh c g e = (e, refl)
on_all_shards_ready-kept host numstrs world false active games sh c g e =
    (resume_games-kept host numstrs world c g active games sh e, refl)
