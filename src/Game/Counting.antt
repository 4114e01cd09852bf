-- ===== src/Game/Counting.antt =====
-- The map of the answers of an insane round and its count.
pub mod Messages
pub mod Events
use triviabot.Common.{
  ℕ, zero, suc, ◌+◌, ◌-◌, ◌≤◌, ◌≡◌, refl, sym, ap, ◌∙◌, Bool, true, false, not, ◌||◌, ◌&&◌, List,
  [], ◌∷◌, ◌++◌, Option, none, some, ltb, leb, ◌==◌, if◌then◌else◌, u32, sub32, arith, length,
  length-append, text_eq, text_eq_refl, text_eq_sound, Bool-cases, Option-cases, inl, inr,
}
use triviabot.Text.{Text}
use triviabot.Host.{Host}
use triviabot.Settings.{GuildSettings}
use triviabot.Game.State.{
  State, Run, Moment, Outcome, Effect, returned, threw, fault, emit, with_game, is_ended, stop_game,
  log_question_index, log_or_stop, add_score, set_score, add_insane_stats, record_activity,
  score_only, cached_user,
}
use triviabot.Game.Board.{do_insane_board}
use triviabot.Game.Rounds.{contains, add_key, insane_key, insane_map, insane_filled, insane_start}
use triviabot.Game.Answers.{
  InMsg, is_open, holds_key, erase_key, award, insane_found, insane_paid, clear_insane_stats,
  insane_answer, update_streak, same_streak, add_to_team, drop_coin, mark_answered, after_pay,
  after_team, after_streak, after_coin, correct_answer, open_message, handle_message,
}

-- No key stands twice.
abbrev pub Distinct : List Text → Type 0
Distinct [] = Unit {0}
Distinct (a ∷ m) = (holds_key a m ≡ false) × Distinct m

-- The keys differ, and the count is their number.
abbrev pub Counted : State → Type 0
Counted g = Distinct g.insane × (g.insane_left ≡ u32 (length g.insane))

-- The game in which a call ends, however it ends.
unfoldable pub final : Outcome → Run
final (returned r) = r
final (threw r) = r
final (fault r) = r

text_eq-sym : (s t : Text) → text_eq s t ≡ text_eq t s
unfolding text_eq
text_eq-sym [] [] = refl
text_eq-sym [] (d ∷ t) = refl
text_eq-sym (c ∷ s) [] = refl
text_eq-sym (c ∷ s) (d ∷ t) = ground (arith, text_eq-sym s t)

holds_key-erase :
    (a b : Text) (m : List Text) → holds_key b m ≡ false → holds_key b (erase_key a m) ≡ false
unfolding holds_key erase_key
holds_key-erase a b [] h = refl
holds_key-erase a b (c ∷ m) h = ground (arith, holds_key-erase a b m)

pub erase_key-Distinct : (a : Text) (m : List Text) → Distinct m → Distinct (erase_key a m)
unfolding erase_key
erase_key-Distinct a [] d = d
erase_key-Distinct a (b ∷ m) d = elim (Bool-cases (text_eq b a)) [
  | inl e ↦ rw e d.1
  | inr e ↦ rw e (holds_key-erase a b m d.0, erase_key-Distinct a m d.1)
]

pub erase_key-length :
    (a : Text) (m : List Text) → holds_key a m ≡ true → suc (length (erase_key a m)) ≡ length m
unfolding holds_key erase_key
erase_key-length a [] h = cc
erase_key-length a (b ∷ m) h = ground (arith, erase_key-length a m)

-- An answer that is taken is not in the map any more.
pub erase_key-gone : (a : Text) (m : List Text) → Distinct m → holds_key a (erase_key a m) ≡ false
unfolding holds_key erase_key
erase_key-gone a [] d = refl
erase_key-gone a (b ∷ m) d = elim (Bool-cases (text_eq b a)) [
  | inl e ↦ rw e (ap (λ k. holds_key k m) (sym (text_eq_sound b a e)) ∙ d.0)
  | inr e ↦ ground (arith, erase_key-gone a m d.1)
]

holds_key-append :
    (a b : Text) (m : List Text)
    → holds_key a m ≡ false
    → text_eq b a ≡ false
    → holds_key a (m ++ b ∷ []) ≡ false
unfolding holds_key
holds_key-append a b [] h e = ground arith
holds_key-append a b (c ∷ m) h e = ground (arith, holds_key-append a b m)

append-Distinct :
    (a : Text) (m : List Text) → Distinct m → contains a m ≡ false → Distinct (m ++ a ∷ [])
unfolding contains holds_key
append-Distinct a [] d h = (refl, tt)
append-Distinct a (b ∷ m) d h = (
  holds_key-append b a m d.0 (ground (arith, text_eq-sym a b)),
  append-Distinct a m d.1 (ground arith),
)

pub add_key-Distinct : (a : Text) (m : List Text) → Distinct m → Distinct (add_key a m)
unfolding add_key
add_key-Distinct a m d = elim (Bool-cases (contains a m)) [
  | inl e ↦ rw e d
  | inr e ↦ rw e (append-Distinct a m d e)
]

insane_map-Distinct :
    (host : Host) (s : GuildSettings) (ns keys : List Text)
    → Distinct keys
    → Distinct (insane_map host s ns keys).0
unfolding insane_map
insane_map-Distinct host s [] keys d = d
insane_map-Distinct host s (n ∷ ns) keys d = elim (Option-cases (insane_key host s n)) [
  | inl e ↦ rw (e, insane_map) d
  | inr (a, e) ↦
      rw (e, insane_map)
        (insane_map-Distinct host s ns (add_key a keys) (add_key-Distinct a keys d))
]

insane_filled-Counted :
    (keys : List Text × Bool) (r r' : Run)
    → Distinct keys.0
    → insane_filled keys r ≡ returned r'
    → Counted r'.game
unfolding insane_filled emit final
insane_filled-Counted (keys, false) r r' d h = cc
insane_filled-Counted (keys, true) r r' d h =
    let e : r'.game.insane ≡ keys = ap (λ (o : Outcome). (final o).game.insane) (sym h) in
    let l : r'.game.insane_left ≡ u32 (length keys) =
      ap (λ (o : Outcome). (final o).game.insane_left) (sym h) in
    rw (e, l) (d, refl)

-- A round that starts has its answers counted, and no two of them are the same.
pub insane_start-Counted :
    (host : Host) (s : GuildSettings) (answers : List Text) (r r' : Run)
    → insane_start host s answers r ≡ returned r'
    → Counted r'.game
unfolding insane_start
insane_start-Counted host s [] r r' h = insane_filled-Counted ([], true) r r' tt h
insane_start-Counted host s (q ∷ answers) r r' h =
    insane_filled-Counted (insane_map host s answers []) _ r'
      (insane_map-Distinct host s answers [] tt) h

-- The two fields stay.
abbrev SameMap : State → State → Type 0
SameMap g h = (h.insane ≡ g.insane) × (h.insane_left ≡ g.insane_left)

pub SameMap-Counted : (g h : State) → SameMap g h → Counted g → Counted h
SameMap-Counted g h (e, l) c = rw (e, l) c
