-- ===== src/Records/History.antt =====
-- log_game_end of modules/trivia/webrequest.cpp: what is written when a game is over.
use triviabot.Common.{
  ◌-◌, ◌≡◌, refl, ap, sym, ◌∙◌, List, [], ◌∷◌, ◌++◌, append_assoc, Option, none, some,
  if◌then◌else◌, length, text_eq,
}
use triviabot.Text.Words.{take_last}
use triviabot.Text.{Text, ascii, take}

-- A row of `scores_lastgame`, as texts.
pub record Score : Type 0 where
  pub user_id : Text
  pub score : Text

-- What is written to the database, in order.
pub data Write : Type 0 where
  active_game_deleted : Write
  history_added : (timestarted scores : Text) → Write
  insane_statistics_deleted : Write

-- One turn of the loop: `{"user_id":"…","score":"…"},`
unfoldable pub entry : Score → Text
entry r =
    ascii "{\"user_id\":\"" ++ (r.user_id ++ (ascii "\",\"score\":\"" ++ (r.score ++ ascii "\"}")))

unfoldable pub score_loop : Text → List Score → Text
score_loop scores [] = scores
score_loop scores (r ∷ rows) = score_loop (scores ++ (entry r ++ 44 ∷ [])) rows

-- The last character is cut off, and the list is closed.
unfoldable pub game_scores : List Score → Text
game_scores rows =
    let scores = score_loop (91 ∷ []) rows in take (length scores - 1) scores ++ 93 ∷ []

-- log_game_end: `started` is that of the active game, if there is one.
unfoldable pub log_game_end : (started : Option Text) → (lastgame : List Score) → List Write
log_game_end started lastgame =
    let scores = game_scores lastgame in
    let history : List Write = elim started [
      | none ↦ []
      | some at ↦ if text_eq scores (93 ∷ []) then [] else history_added at scores ∷ []
    ] in
    active_game_deleted ∷ history ++ insane_statistics_deleted ∷ []

-- The entries with commas between them.
abbrev pub joined : List Score → Text
joined [] = []
joined (r ∷ []) = entry r
joined (r ∷ (q ∷ rows)) = entry r ++ 44 ∷ joined (q ∷ rows)

score_loop_lem :
    (scores : Text) (r : Score) (rows : List Score)
    → score_loop scores (r ∷ rows) ≡ (scores ++ joined (r ∷ rows)) ++ 44 ∷ []
unfolding score_loop
score_loop_lem scores r [] = sym (append_assoc scores (entry r) (44 ∷ []))
score_loop_lem scores r (q ∷ rows) =
    score_loop_lem (scores ++ (entry r ++ 44 ∷ [])) q rows
    ∙ ap (λ s. s ++ 44 ∷ [])
        (append_assoc scores (entry r ++ 44 ∷ []) (joined (q ∷ rows))
          ∙ ap (λ s. scores ++ s) (append_assoc (entry r) (44 ∷ []) (joined (q ∷ rows))))

-- The row of the history, where there is one: a JSON array of an object for each score.
abbrev pub history_of : (started : Option Text) → (lastgame : List Score) → List Write
history_of none lastgame = []
history_of (some at) [] = []
history_of (some at) (r ∷ rows) = history_added at (91 ∷ joined (r ∷ rows) ++ 93 ∷ []) ∷ []

game_scores_nil : game_scores [] ≡ 93 ∷ []
unfolding game_scores score_loop take
game_scores_nil = refl

game_scores_cons :
    (r : Score) (rows : List Score) → game_scores (r ∷ rows) ≡ 91 ∷ joined (r ∷ rows) ++ 93 ∷ []
unfolding game_scores
game_scores_cons r rows =
    rw (score_loop_lem (91 ∷ []) r rows, take_last (91 ∷ joined (r ∷ rows)) 44) refl

history_written :
    (at : Text) (lastgame : List Score)
    → (if text_eq (game_scores lastgame) (93 ∷ [])
        then []
        else history_added at (game_scores lastgame) ∷ [])
      ≡ history_of (some at) lastgame
unfolding text_eq
history_written at [] = rw game_scores_nil refl
history_written at (r ∷ rows) = rw (game_scores_cons r rows) refl

-- The history of a game is written exactly when the game was logged as active and somebody has a
-- score in it; its scores are then the JSON array of an object for each of them, in their order with
-- commas between them. The active game and the statistics of the insane round are deleted always.
log_game_end_lem :
    (started : Option Text) (lastgame : List Score)
    → log_game_end started lastgame
      ≡ active_game_deleted ∷ history_of started lastgame ++ insane_statistics_deleted ∷ []
unfolding log_game_end
log_game_end_lem none lastgame = refl
log_game_end_lem (some at) lastgame =
    ap (λ h. active_game_deleted ∷ h ++ insane_statistics_deleted ∷ [])
      (history_written at lastgame)
