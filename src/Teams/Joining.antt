-- ===== src/Teams/Joining.antt =====
-- Who a command takes into a team, and who it only tells so.
use triviabot.Common.{
  ℕ, ◌≡◌, ◌⊎◌, ◌&&◌, is_empty, false, refl, ap, ◌∙◌, true, List, [], ◌∷◌, none, ◌==◌, if◌then◌else◌,
  inl, inr, List-cases, arith,
}
use triviabot.Text.{Text, getline, trim}
use triviabot.Teams.{
  Team, Tables, Collation, joined, not_qualified, members_of, claim, enter, qualify, teams_named,
  join_team, join_reply, join_call,
}
use triviabot.Teams.Membership.{members_of-entered, enter_member, qualify_cases}

-- A team that asks for no score.
module _ (db : Collation) (nick : ℕ) (team : Text) (t : Tables) (info : Team)
    (rows : List Team) where
  join_named :
      teams_named db team t.teams ≡ info ∷ rows
      → join_team db nick team t ≡ qualify db nick team info.qualifying_score t
  unfolding join_team
  join_named named = rw (named, join_team)

  pub join_open :
      teams_named db team t.teams ≡ info ∷ rows
      → info.qualifying_score ≡ none
      → join_team db nick team t ≡ enter db nick team t
  unfolding qualify
  join_open named free = join_named named ∙ ap (λ q. qualify db nick team q t) free

pub entered_true :
    (db : Collation) (nick : ℕ) (team : Text) (t : Tables) → (enter db nick team t).0 ≡ joined true
unfolding enter
entered_true db nick team t = elim (List-cases (members_of nick t.members)) [
  | inl e ↦ rw (e, enter) refl
  | inr (m, ms, e) ↦ rw (e, enter) refl
]

join_team_outcomes :
    (db : Collation) (nick : ℕ) (team : Text) (t : Tables)
    → (join_team db nick team t ≡ (joined false, t))
      ⊎ (((score : ℕ) × (required : ℕ) × (join_team db nick team t
              ≡ (not_qualified score required, t)))
          ⊎ (join_team db nick team t ≡ enter db nick team t))
unfolding join_team
join_team_outcomes db nick team t = elim (List-cases (teams_named db team t.teams)) [
  | inl e ↦ inl (rw (e, join_team) refl)
  | inr (info, rows, e) ↦ elim (qualify_cases db nick team info.qualifying_score t) [
    | inl entered ↦ inr (inr (rw (e, join_team) entered))
    | inr (score, required, l, refused) ↦ inr (inl (score, required, rw (e, join_team) refused))
  ]
]

-- A user's membership behind one who has entered a team, whether they were in one before or not.
members_of-entering :
    (db : Collation) (u nick : ℕ) (team : Text) (t : Tables)
    → members_of u (enter db nick team t).1.members ≡ (
        if u == nick && is_empty (members_of nick t.members)
        then record { nick = nick; team = team; points_contributed = 0 } ∷ []
        else members_of u t.members)
unfolding claim
members_of-entering db u nick team t = elim (List-cases (members_of nick t.members)) [
  | inl e ↦ rw e (members_of-entered db u nick team t e ∙ ground arith)
  | inr (m, ms, e) ↦ rw (e, enter_member db nick team t m ms e) (ground arith)
]

-- Whatever team a player asks for with the join command, either nothing is changed, and the reply is
-- CANTJOIN or MIN_REQUIREMENT; or the reply is JOINED, and a player who was in no team is in that team
-- from then on with no points contributed, while one who was in a team stays in that, and so does
-- everybody else.
pub join_call_members :
    (db : Collation) (author : ℕ) (tokens : Text) (t : Tables)
    → let (reply, after) = join_call db author tokens t in
      ((after ≡ t)
        × ((reply ≡ "CANTJOIN" ∷ []) ⊎ (reply ≡ "MIN_REQUIREMENT" ∷ "MIN_REQ_HEADER" ∷ [])))
      ⊎ ((reply ≡ "JOINED" ∷ "CALLFORBACKUP" ∷ [])
          × ((u : ℕ)
              → members_of u after.members ≡ (
                  if u == author && is_empty (members_of author t.members)
                  then record {
                    nick = author;
                    team = trim (getline tokens);
                    points_contributed = 0;
                  }
                    ∷ []
                  else members_of u t.members)))
unfolding join_call join_reply
join_call_members db author tokens t =
    let team = trim (getline tokens) in
    elim (join_team_outcomes db author team t) [
      | inl absent ↦ inl (rw absent refl, inl (rw absent refl))
      | inr (inl (score, required, refused)) ↦ inl (rw refused refl, inr (rw refused refl))
      | inr (inr entered) ↦ inr (
        rw (entered, entered_true db author team t) refl,
        λ u. rw entered (members_of-entering db u author team t),
      )
    ]
