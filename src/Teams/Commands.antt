-- ===== src/Teams/Commands.antt =====
-- What the commands do to the tables of the teams.
use triviabot.Common.{
  ℕ, ◌≡◌, refl, List, [], ◌∷◌, ◌++◌, map, keep, none, if◌then◌else◌, inl, inr, Bool-cases,
  List-cases, length, is_empty, arith,
}
use triviabot.Text.{Text, getline, trim, replaced}
use triviabot.Teams.{
  Team, Member, Tables, Collation, members_of, get_current_team, leave_team, teams_named, join_call,
  leave_call, create_team, create_each, create_call, add_team_points, contribute,
}
use triviabot.Teams.Censor.{SwearFilter}
use triviabot.Teams.Membership.{members_of-left, AtMostOne, join_team-AtMostOne}

-- A command that somebody gives, or points that a game adds.
pub data Step (db : Collation) : Tables → Tables → Type 0 where
  join : (author : ℕ) (tokens : Text) (t : Tables) → Step db t (join_call db author tokens t).1
  leave : (author : ℕ) (t : Tables) → Step db t (leave_call author t).1
  create :
      (censor : Text → List SwearFilter) (author : ℕ) (tokens : Text) (t : Tables)
      → Step db t (create_call db censor author tokens t).1
  score :
      (team : Text) (points user : ℕ) (t : Tables)
      → Step db t (add_team_points db team points user t)

leave_call-AtMostOne : (author : ℕ) (t : Tables) → AtMostOne t → AtMostOne (leave_call author t).1
unfolding leave_call leave_team
leave_call-AtMostOne author t one u = elim (Bool-cases (is_empty (get_current_team author t))) [
  | inl e ↦ rw (e, leave_call) (one u)
  | inr e ↦ rw (e, leave_call, members_of-left u author t.members) (ground (arith, one u))
]

create_team-AtMostOne :
    (db : Collation) (author : ℕ) (name : Text) (t : Tables)
    → AtMostOne t
    → AtMostOne (create_team db author name t).1
unfolding create_team
create_team-AtMostOne db author name t one =
    let fresh : Team = record {
      name = name;
      score = 0;
      owner_id = none;
      qualifying_score = none;
    } in
    let added = record t { teams = t.teams ++ fresh ∷ [] } in
    elim (List-cases (teams_named db name t.teams)) [
      | inl e ↦ rw (e, create_team) (join_team-AtMostOne db author name added one)
      | inr (row, rows, e) ↦ rw (e, create_team) one
    ]

create_each-AtMostOne :
    (db : Collation) (author : ℕ) (name : Text) (ccs : List SwearFilter) (t : Tables)
    → AtMostOne t
    → AtMostOne (create_each db author name ccs t).1
unfolding create_each
create_each-AtMostOne db author name [] t one = one
create_each-AtMostOne db author name (cc ∷ ccs) t one =
    let cleaned = if cc.clean then name else cc.censored_content in
    create_each-AtMostOne db author name ccs (create_team db author cleaned t).1
      (create_team-AtMostOne db author cleaned t one)

create_call-AtMostOne :
    (db : Collation) (censor : Text → List SwearFilter) (author : ℕ) (tokens : Text) (t : Tables)
    → AtMostOne t
    → AtMostOne (create_call db censor author tokens t).1
unfolding create_call
create_call-AtMostOne db censor author tokens t one =
    let name = trim (replaced (trim (getline tokens)) (64 ∷ []) []) in
    elim (Bool-cases (is_empty (get_current_team author t))) [
      | inl e ↦ rw (e, create_call) (create_each-AtMostOne db author name (censor name) t one)
      | inr e ↦ rw (e, create_call) one
    ]

members_of-contribute :
    (u user points : ℕ) (ms : List Member)
    → length (members_of u (map (contribute user points) ms)) ≡ length (members_of u ms)
unfolding members_of keep contribute
members_of-contribute u user points [] = refl
members_of-contribute u user points (m ∷ ms) =
    ground (arith, members_of-contribute u user points ms)

add_team_points-AtMostOne :
    (db : Collation) (team : Text) (points user : ℕ) (t : Tables)
    → AtMostOne t
    → AtMostOne (add_team_points db team points user t)
unfolding add_team_points
add_team_points-AtMostOne db team points user t one u =
    ground (arith, members_of-contribute u user points t.members, one u)

-- Nobody is ever in more than one team: joining, leaving and creating a team and adding points to it
-- keep it so, whatever the command says.
pub Step-AtMostOne : {db : Collation} {t t' : Tables} → Step db t t' → AtMostOne t → AtMostOne t'
unfolding join_call
Step-AtMostOne {db} (join author tokens t) one =
    join_team-AtMostOne db author (trim (getline tokens)) t one
Step-AtMostOne (leave author t) one = leave_call-AtMostOne author t one
Step-AtMostOne {db} (create censor author tokens t) one =
    create_call-AtMostOne db censor author tokens t one
Step-AtMostOne {db} (score team points user t) one =
    add_team_points-AtMostOne db team points user t one
